-- ===== src/Tests/Ledgers.antt =====
-- The theorems on the release metadata at small artifacts.
use fortsym.Base.{List, [], ◌∷◌, ◌++◌, map, ok, ◌≡◌, refl, contains, nat_eq, list_eq}
use fortsym.Base.Text.{Text, codes}
use fortsym.Release.{
  Policy, Audit, Ledger, LedgerRow, Classified, as_set, is_distinct, root_of, idents, all_affected,
  supported_names, IsDistinct, validate_naming_policy, validate_ledger,
}
use fortsym.Release.Soundness.{
  IsConsistent, validate_naming_policy-IsConsistent, validate_ledger-IsDistinct,
}

abbrev policy : Policy
policy = record {
  distribution = codes "fortsym";
  sympy_version = codes "1.14.0";
  source_audit = codes "audit";
  families =
      record {
        ident = codes "calculus";
        audit_concepts = codes "diff" ∷ [];
        canonical_native = codes "differentiate" ∷ [];
        decision = codes "keep";
      }
      ∷ [];
}

abbrev audit : Audit
audit = record {
  distribution = codes "fortsym";
  sympy_version = codes "1.14.0";
  classification = codes "classification";
  concepts = codes "diff" ∷ [];
}

policy_accepted : validate_naming_policy policy audit ≡ ok tt
unfolding validate_naming_policy is_distinct as_set
policy_accepted = refl

validate_naming_policy-IsConsistent_example : IsConsistent policy audit
validate_naming_policy-IsConsistent_example =
    validate_naming_policy-IsConsistent policy audit policy_accepted

abbrev difference_row : Text → LedgerRow
difference_row ident = record {
  ident = ident;
  affected = codes "sin.diff" ∷ [];
  parity = codes "same";
  sympy = codes "a";
  fortsym = codes "b";
  difference = codes "c";
}

abbrev ledger : Ledger
ledger = record {
  distribution = codes "sympy";
  version = codes "1.14.0";
  source_classification = codes "classification";
  semantic = difference_row (codes "S1") ∷ [];
  implementation = difference_row (codes "I1") ∷ [];
}

abbrev sine : List Classified
sine = record { name = codes "sin"; layers = codes "python-adapter" ∷ [] } ∷ []

ledger_accepted : validate_ledger ledger (codes "sympy") (codes "1.14.0") sine ≡ ok tt
unfolding validate_ledger is_distinct as_set root_of
ledger_accepted = refl

validate_ledger-IsDistinct_example :
    IsDistinct (idents (ledger.semantic ++ ledger.implementation))
    × ((name : Text)
        → contains name (map root_of (all_affected ledger.semantic))
          ≡ contains name (supported_names sine))
validate_ledger-IsDistinct_example =
    validate_ledger-IsDistinct ledger (codes "sympy") (codes "1.14.0") sine ledger_accepted
