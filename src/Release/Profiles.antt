-- ===== src/Release/Profiles.antt =====
-- `_validate_inventory`, `_validate_naming` and `_validate_difference_artifacts`.
use fortsym.Base.{
  ℕ, Bool, false, ◌&&◌, List, Option, none, some, Result, err, value_error, assertion_error, ◌>>◌,
  guard, ◌==◌, nat_eq, list_eq, length, nat_beq,
}
use fortsym.Base.{◌++◌}
use fortsym.Base.Text.{Text, codes, has_part}
use fortsym.Release.Policies.{
  Ledger, Classified, Policy, Audit, validate_ledger, validate_naming_policy,
}

-- The fields of a profile that these checks read.
pub record Profile : Type 0 where
  pub distribution : Text
  pub sympy_distribution : Text
  pub sympy_version : Text
  pub inventory : Text
  pub classification : Text
  pub naming_audit : Text
  pub api_baseline : Text

-- An inventory; a list that is absent is empty, as `get(..., [])` reads it.
pub record InventoryFile : Type 0 where
  pub schema_version : Option ℕ
  pub distribution : Option Text
  pub version : Option Text
  pub import_failure_count : Option ℕ
  pub import_failures : List Text
  pub module_count : Option ℕ
  pub modules : List Text
  pub root_export_count : Option ℕ
  pub root_exports : List Text

pub record DiffFile : Type 0 where
  pub schema_version : Option ℕ
  pub distribution : Option Text
  pub base_version : Option Text
  pub candidate_version : Option Text
  pub baseline : Option Text
  pub candidate : Option Text
  pub clean : Option Bool

abbrev pub is_number : Option ℕ → ℕ → Bool
is_number none n = false
is_number (some k) n = nat_beq k n

abbrev pub is_text : Option Text → Text → Bool
is_text none t = false
is_text (some s) t = s == t

abbrev pub is_true : Option Bool → Bool
is_true none = false
is_true (some b) = b

-- `_require`: a `ReleaseProfileError` is a `ValueError`.
abbrev pub demand : Bool → Result (Unit {0})
demand b = guard b value_error

-- `except (AssertionError, ValueError)`: the error of the profile instead.
abbrev pub rethrown : Result (Unit {0}) → Result (Unit {0})
rethrown (err assertion_error) = err value_error
rethrown r = r

unfoldable pub validate_inventory : InventoryFile → Profile → Result (Unit {0})
validate_inventory i profile = do
  demand (is_number i.schema_version 1)
  demand (is_text i.distribution profile.sympy_distribution)
  demand (is_text i.version profile.sympy_version)
  demand (is_number i.import_failure_count (length i.import_failures))
  demand (is_number i.module_count (length i.modules))
  demand (is_number i.root_export_count (length i.root_exports))

unfoldable pub validate_naming : Policy → Audit → Profile → Result (Unit {0})
unfolding validate_naming_policy
validate_naming policy audit profile = do
  demand (policy.distribution == profile.distribution)
  demand (policy.sympy_version == profile.sympy_version)
  demand (policy.source_audit == profile.naming_audit)
  demand (audit.distribution == profile.distribution)
  demand (audit.sympy_version == profile.sympy_version)
  demand (audit.classification == profile.classification)
  rethrown (validate_naming_policy policy audit)

unfoldable pub validate_difference_artifacts :
    Ledger → DiffFile → Text → Text → List Classified → Profile → Result (Unit {0})
unfolding validate_ledger
validate_difference_artifacts ledger diff distribution version root_exports profile = do
  demand (ledger.distribution == profile.sympy_distribution)
  demand (ledger.version == profile.sympy_version)
  demand (ledger.source_classification == profile.classification)
  rethrown (validate_ledger ledger distribution version root_exports)
  demand (is_number diff.schema_version 1)
  demand (is_text diff.distribution profile.sympy_distribution)
  demand (
      is_text diff.base_version profile.sympy_version
      && is_text diff.candidate_version profile.sympy_version)
  demand (is_text diff.baseline profile.api_baseline)
  demand (is_text diff.candidate profile.inventory)
  demand (is_true diff.clean)

-- A classification: the counts of its summary and the lists that they count.
pub record ClassificationFile : Type 0 where
  pub schema_version : Option ℕ
  pub distribution : Option Text
  pub version : Option Text
  pub source_inventory : Option Text
  pub module_count : Option ℕ
  pub modules : List Text
  pub module_export_count : Option ℕ
  pub module_exports : List Text
  pub root_export_count : Option ℕ
  pub root_exports : List Text
  pub class_count : Option ℕ
  pub classes : List Text
  pub fortran_count : Option ℕ
  pub public_exports : List Text

unfoldable pub validate_classification : ClassificationFile → Profile → Result (Unit {0})
validate_classification c profile = do
  demand (is_number c.schema_version 1)
  demand (is_text c.distribution profile.sympy_distribution)
  demand (is_text c.version profile.sympy_version)
  demand (is_text c.source_inventory profile.inventory)
  demand (is_number c.module_count (length c.modules))
  demand (is_number c.module_export_count (length c.module_exports))
  demand (is_number c.root_export_count (length c.root_exports))
  demand (is_number c.class_count (length c.classes))
  demand (is_number c.fortran_count (length c.public_exports))

-- `validate_feature_matrix`
unfoldable pub validate_feature_matrix : Text → Text → Result (Unit {0})
unfolding has_part
validate_feature_matrix text profile_name = do
  demand (has_part text (codes "<!-- release-profile: " ++ (profile_name ++ codes " -->")))
  demand (
      has_part text
        (codes "| Area | Native | SymEngine backend | Other backends | Required next fragment |"))
  demand (has_part text (codes "SymPy") && has_part text (codes "FortFEM"))
