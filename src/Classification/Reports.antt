-- ===== src/Classification/Reports.antt =====
-- `build_report`: the classified items of every kind, without the constant texts of the report.
use fortsym.Base.{
  Bool, true, false, ◌&&◌, ◌||◌, List, [], ◌∷◌, ◌++◌, map, Option, none, some, Result, ok, err,
  key_error, ◌>>=◌, nat_eq, list_eq, contains, if◌then◌else◌,
}
use fortsym.Base.Dict.{Dict, insert}
use fortsym.Base.Text.{Text, codes}
use fortsym.Classification.Layers.{
  Layers, Profile, Export, refused, refusal, placed, supported_layers, classify_module_export,
  class_layers, fortran_classification,
}

pub record Module : Type 0 where
  pub name : Text
  pub exports : List Export

pub record Class : Type 0 where
  pub ident : Text
  pub name : Text
  pub kind : Text
  pub methods : List Text

pub record Inventory : Type 0 where
  pub root_exports : List Export
  pub modules : List Module
  pub classes : List Class

-- A row of the report; `home` is the module or the class.
pub record Item : Type 0 where
  pub ident : Text
  pub home : Option Text
  pub name : Text
  pub kind : Option Text
  pub placement : Layers

pub record Report : Type 0 where
  pub modules : List Item
  pub root_exports : List Item
  pub module_exports : List Item
  pub classes : List Item
  pub methods : List Item
  pub fortran : List Item

-- `f"{a}.{b}"`
abbrev pub dotted : Text → Text → Text
dotted a b = a ++ (b'.' ∷ b)

-- `{record["name"]: record for record in records}`
abbrev pub by_name : List Export → Dict Text Export → Dict Text Export
by_name [] d = d
by_name (e ∷ rest) d = by_name rest (insert e.name e d)

abbrev pub add_class : Bool → Option Text → List Text → List Text
add_class true (some c) ids = c ∷ ids
add_class true none ids = ids
add_class false c ids = ids

unfoldable pub supported_class_ids : Profile → List Export → List Text
supported_class_ids profile [] = []
supported_class_ids profile (e ∷ rest) =
    add_class (contains e.name profile.supported) e.class_id (supported_class_ids profile rest)

-- `record["kind"]` of an export, and the item with it.
abbrev pub with_kind : Option (Option Text) → (Option Text → Item) → Result Item
with_kind none f = err key_error
with_kind (some kind) f = ok (f kind)

unfoldable pub root_item : Profile → Export → Result Item
unfolding supported_layers
root_item profile e = with_kind e.kind (λ kind. record {
  ident = dotted (codes "root") e.name;
  home = none;
  name = e.name;
  kind = kind;
  placement = supported_layers e.name profile;
})

abbrev pub module_item : Module → Item
module_item m = record {
  ident = m.name;
  home = none;
  name = m.name;
  kind = none;
  placement = refusal "whole-module parity is not declared; symbols are classified individually";
}

unfoldable pub export_item : Dict Text Export → Profile → Text → Export → Result Item
unfolding classify_module_export
export_item roots profile home e =
    if e.access_error
    then ok (record {
      ident = dotted home e.name;
      home = some home;
      name = e.name;
      kind = none;
      placement =
          placed (refused ∷ []) (codes "doc/sympy-api-inventory.json")
            "public name was inventoried but its module attribute could not be accessed";
    })
    else with_kind e.kind (λ kind. record {
      ident = dotted home e.name;
      home = some home;
      name = e.name;
      kind = kind;
      placement = classify_module_export e roots profile;
    })

-- A loop that appends an item for each record, and raises with the first that does.
unfoldable pub each_item : {A : Type 0} → (A → Result Item) → List A → Result (List Item)
each_item f [] = ok []
each_item f (x ∷ xs) = do item ← f x; items ← each_item f xs; ok (item ∷ items)

unfoldable pub export_items : Dict Text Export → Profile → List Module → Result (List Item)
unfolding each_item export_item
export_items roots profile [] = ok []
export_items roots profile (m ∷ rest) = do
  items ← each_item (export_item roots profile m.name) m.exports
  others ← export_items roots profile rest
  ok (items ++ others)

unfoldable pub class_item : List Text → Profile → Class → Item
unfolding class_layers
class_item ids profile c = record {
  ident = c.ident;
  home = none;
  name = c.name;
  kind = some c.kind;
  placement = class_layers c.ident ids profile;
}

abbrev pub matrix_method_owners : List Text
matrix_method_owners =
    codes "sympy.matrices.matrixbase.MatrixBase"
    ∷ codes "sympy.matrices.matrices.MatrixDeterminant"
    ∷ codes "sympy.matrices.matrices.MatrixEigen"
    ∷ []

unfoldable pub method_supported : List Text → Profile → Text → Text → Bool
method_supported ids profile class_id name =
    (contains class_id ids
      || (contains class_id matrix_method_owners && contains (codes "Matrix") profile.supported))
    && contains name profile.methods

unfoldable pub method_item : List Text → Profile → Text → Text → Item
unfolding method_supported supported_layers
method_item ids profile class_id name = record {
  ident = dotted class_id name;
  home = some class_id;
  name = name;
  kind = none;
  placement =
      if method_supported ids profile class_id name
      then supported_layers name profile
      else refusal "method is inventoried for parity but is outside the declared adapter subset";
}

unfoldable pub method_items : List Text → Profile → List Class → List Item
unfolding method_item
method_items ids profile [] = []
method_items ids profile (c ∷ rest) =
    map (method_item ids profile c.ident) c.methods ++ method_items ids profile rest

-- The public declarations of a file, each with its module, behind `parse_public_declarations`.
abbrev pub Source : Type 0
Source = Text × List (Text × Text)

abbrev pub fortran_item : Text → Text × Text → Item
fortran_item relative (home, name) = record {
  ident = dotted home name;
  home = some home;
  name = name;
  kind = none;
  placement = fortran_classification relative;
}

unfoldable pub fortran_items : List Source → List Item
unfolding fortran_classification
fortran_items [] = []
fortran_items ((relative, declarations) ∷ rest) =
    map (fortran_item relative) declarations ++ fortran_items rest

unfoldable pub build_report : Profile → Inventory → List Source → Result Report
unfolding each_item root_item export_items supported_class_ids insert class_item method_items
    fortran_items
build_report profile inventory sources =
    let ids = supported_class_ids profile inventory.root_exports in
    do
      root_exports ← each_item (root_item profile) inventory.root_exports
      module_exports ← export_items (by_name inventory.root_exports []) profile inventory.modules
      ok (record {
        modules = map module_item inventory.modules;
        root_exports = root_exports;
        module_exports = module_exports;
        classes = map (class_item ids profile) inventory.classes;
        methods = method_items ids profile inventory.classes;
        fortran = fortran_items sources;
      })
