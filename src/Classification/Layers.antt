-- ===== src/Classification/Layers.antt =====
-- `layers`, `supported_layers`, `classify_module_export`, `class_layers`, `fortran_classification`.
use fortsym.Base.{
  String, Bool, true, false, ◌&&◌, ◌||◌, List, [], ◌∷◌, ◌++◌, any, Option, none, some, ◌==◌, nat_eq,
  list_eq, contains, if◌then◌else◌,
}
use fortsym.Base.Dict.{Dict, lookup}
use fortsym.Base.Text.{Text, codes, ends_with, has_part}

pub data Layer : Type 0 where
  native facade python_adapter external delegated refused : Layer

pub record Layers : Type 0 where
  pub classification : List Layer
  pub owner : Text
  pub reason : String

-- `adapter_profile`, as far as the report reads it.
pub record Profile : Type 0 where
  pub supported : List Text
  pub refused_names : List Text
  pub methods : List Text

-- An export of the inventory: a root export or one of a module. `none` is an absent
-- field or `None`; of the kind, `none` is the absent field and `some none` is `None`.
pub record Export : Type 0 where
  pub name : Text
  pub kind : Option (Option Text)
  pub home : Option Text
  pub qualname : Option Text
  pub class_id : Option Text
  pub access_error : Bool

-- A refusal that the roadmap owns.
abbrev pub refusal : String → Layers
refusal reason = record {
  classification = refused ∷ [];
  owner = codes "ROADMAP.md";
  reason = reason;
}

unfoldable pub supported_layers : Text → Profile → Layers
supported_layers name profile =
    if contains name profile.supported
    then record {
      classification = python_adapter ∷ delegated ∷ native ∷ [];
      owner =
          codes "python/fortsym/sympy/__init__.py -> python/fortsym/__init__.py -> Fortran C ABI";
      reason = "declared SymPy subset delegated to the native expression implementation";
    }
    else if contains name profile.refused_names
    then record {
      classification = refused ∷ [];
      owner = codes "python/fortsym/sympy/__init__.py";
      reason = "explicitly refused by the compatibility layer until its semantics are covered";
    }
    else refusal "outside the declared compatibility subset; no implementation claim is made"

abbrev pub same_text : Option Text → Option Text → Bool
same_text none none = true
same_text none (some b) = false
same_text (some a) none = false
same_text (some a) (some b) = a == b

-- `record.get("kind")`
abbrev pub given_kind : Option (Option Text) → Option Text
given_kind none = none
given_kind (some kind) = kind

-- Are the two exports one object?
abbrev pub same_object : Export → Export → Bool
same_object a b =
    same_text (given_kind a.kind) (given_kind b.kind)
    && same_text a.home b.home
    && same_text a.qualname b.qualname

abbrev pub matched : Export → Profile → Option Export → Bool
matched e profile none = false
matched e profile (some root) = contains e.name profile.supported && same_object e root

unfoldable pub classify_module_export : Export → Dict Text Export → Profile → Layers
unfolding lookup supported_layers
classify_module_export e root_by_name profile =
    if matched e profile (lookup e.name root_by_name)
    then supported_layers e.name profile
    else refusal "the individual module export is not a declared supported adapter object"

-- `rsplit(".", 1)[-1]`: what follows the last dot, with the part so far.
unfoldable pub last_part : Text → Text → Text
last_part [] part = part
last_part (c ∷ rest) part = if c == b'.' then last_part rest [] else last_part rest (part ++ c ∷ [])

unfoldable pub class_layers : Text → List Text → Profile → Layers
unfolding last_part supported_layers
class_layers class_id supported_class_ids profile =
    if contains class_id supported_class_ids
    then supported_layers (last_part class_id []) profile
    else refusal "class is inventoried for parity but is outside the declared adapter subset"

abbrev pub engine_files : List Text
engine_files =
    codes "fortsym_engine_symengine.f90"
    ∷ codes "fortsym_engine_yacas.f90"
    ∷ codes "fortsym_engine_ext.f90"
    ∷ []

abbrev pub placed : List Layer → Text → String → Layers
placed l owner reason = record { classification = l; owner = owner; reason = reason }

-- `fortran_classification` of a path relative to the root.
unfoldable pub fortran_classification : Text → Layers
unfolding ends_with has_part
fortran_classification relative =
    if ends_with relative (codes "src/core/fortsym.f90")
      || ends_with relative (codes "src/capi/fortsym_public_capi.f90")
    then placed (facade ∷ native ∷ []) relative
        "public convenience or C-ABI surface over the native Fortran owner"
    else if any (has_part relative) engine_files
    then placed (external ∷ delegated ∷ []) relative
        "engine boundary delegates to an external symbolic implementation"
    else if ends_with relative (codes "src/engine/fortsym_engine.f90")
        || has_part relative (codes "/council/")
    then placed (delegated ∷ []) relative
        "capability or council layer delegates to a selected engine"
    else placed (native ∷ []) relative
        "public declaration is owned by the in-process Fortran implementation"
