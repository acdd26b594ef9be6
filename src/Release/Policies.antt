-- ===== src/Release/Policies.antt =====
-- The two `validate` functions; `assert` raises an `AssertionError`.
use fortsym.Base.{
  Bool, true, false, not, ◌&&◌, List, [], ◌∷◌, ◌++◌, map, all, keep, Result, assertion_error, ◌>>◌,
  guard, ◌==◌, nat_eq, list_eq, contains, if◌then◌else◌,
}
use fortsym.Base.Text.{Text, codes}
use fortsym.Release.Sets.{is_distinct, same_set, is_subset}

-- A row of the ledger, and a root export of the classification.
pub record LedgerRow : Type 0 where
  pub ident : Text
  pub affected : List Text
  pub parity : Text
  pub sympy : Text
  pub fortsym : Text
  pub difference : Text

pub record Ledger : Type 0 where
  pub distribution : Text
  pub version : Text
  pub source_classification : Text
  pub semantic : List LedgerRow
  pub implementation : List LedgerRow

pub record Classified : Type 0 where
  pub name : Text
  pub layers : List Text

abbrev pub all_affected : List LedgerRow → List Text
all_affected [] = []
all_affected (x ∷ rows) = x.affected ++ all_affected rows

abbrev pub supported_names : List Classified → List Text
supported_names items =
    map (λ (i : Classified). i.name)
      (keep (λ (i : Classified). contains (codes "python-adapter") i.layers) items)

abbrev pub idents : List LedgerRow → List Text
idents rows = map (λ (x : LedgerRow). x.ident) rows

-- `name.split(".", 1)[0]`
unfoldable pub root_of : Text → Text
root_of [] = []
root_of (c ∷ s) = let rest = root_of s in if c == b'.' then [] else c ∷ rest

abbrev pub is_empty : {A : Type 0} → List A → Bool
is_empty [] = true
is_empty (x ∷ xs) = false

abbrev pub assert : Bool → Result (Unit {0})
assert b = guard b assertion_error

abbrev pub agree : Text → Text → Text → Bool
agree a b constant = a == b && b == constant

-- `validate` of scripts/check_sympy_api_differences.py
unfoldable pub validate_ledger : Ledger → Text → Text → List Classified → Result (Unit {0})
unfolding is_distinct root_of
validate_ledger ledger distribution version root_exports =
    let rows = ledger.semantic ++ ledger.implementation in
    let roots = map root_of (all_affected ledger.semantic) in
    let supported = supported_names root_exports in
    do
      assert (agree ledger.distribution distribution (codes "sympy"))
      assert (agree ledger.version version (codes "1.14.0"))
      assert (not (is_empty ledger.semantic) && not (is_empty ledger.implementation))
      assert (is_distinct (idents rows))
      assert (same_set roots supported)
      assert (is_subset roots supported)
      assert (
          all (λ x. contains x.parity (codes "partial" ∷ codes "same" ∷ codes "refused" ∷ []))
            ledger.semantic)
      assert (all (λ x. not (is_empty x.affected)) rows)
      assert (
          all
            (λ x.
              not (is_empty x.sympy) && (not (is_empty x.fortsym) && not (is_empty x.difference)))
            rows)

pub record Family : Type 0 where
  pub ident : Text
  pub audit_concepts : List Text
  pub canonical_native : List Text
  pub decision : Text

pub record Policy : Type 0 where
  pub distribution : Text
  pub sympy_version : Text
  pub source_audit : Text
  pub families : List Family

-- `classification` is `sources.classification`, or none of it.
pub record Audit : Type 0 where
  pub distribution : Text
  pub sympy_version : Text
  pub classification : Text
  pub concepts : List Text

abbrev pub family_ids : List Family → List Text
family_ids l = map (λ (f : Family). f.ident) l

abbrev pub covered : List Family → List Text
covered [] = []
covered (f ∷ l) = f.audit_concepts ++ covered l

abbrev pub native_names : List Family → List Text
native_names [] = []
native_names (f ∷ l) = f.canonical_native ++ native_names l

-- `validate` of scripts/check_api_naming_policy.py
unfoldable pub validate_naming_policy : Policy → Audit → Result (Unit {0})
unfolding is_distinct
validate_naming_policy policy audit = do
  assert (agree policy.distribution audit.distribution (codes "fortsym"))
  assert (agree policy.sympy_version audit.sympy_version (codes "1.14.0"))
  assert (is_distinct (family_ids policy.families))
  assert (same_set (covered policy.families) audit.concepts)
  assert (all (λ f. not (is_empty f.canonical_native)) policy.families)
  assert (all (λ f. not (is_empty f.decision)) policy.families)
  assert (is_distinct (native_names policy.families))
