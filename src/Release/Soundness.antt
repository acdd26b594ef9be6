-- ===== src/Release/Soundness.antt =====
-- What holds of artifacts that the validators accept.
use fortsym.Base.{
  ◌≡◌, refl, Bool, true, false, List, [], ◌∷◌, ◌++◌, map, Error, assertion_error, not, ◌&&◌, Result,
  ok, ◌>>◌, guard, contains, nat_eq, list_eq, all,
}
use fortsym.Base.Text.{Text, codes}
use fortsym.Release.Sets.{
  is_subset, is_distinct, same_set, IsDistinct, is_distinct-IsDistinct, same_set-contains,
}
use fortsym.Release.Policies.{
  Ledger, Classified, Policy, Audit, all_affected, supported_names, idents, root_of, agree,
  is_empty, family_ids, covered, native_names, validate_ledger, validate_naming_policy,
}

abbrev Passed : Result (Unit {0}) → Type 0
Passed r = r ≡ ok tt

module _ (x : Error) where
  Passed-guard :
      (b : Bool) (rest : Result (Unit {0})) → Passed (guard b x >> rest) → (b ≡ true) × Passed rest
  Passed-guard true rest h = (refl, h)
  Passed-guard false rest h = absurd (cc)

  last-Passed : (b : Bool) → Passed (guard b x) → b ≡ true
  last-Passed true h = refl
  last-Passed false h = absurd (cc)

-- The two comparisons in front of each `validate`, whatever they compare.
module _ (p q : Bool) (x : Error) where
  behind_two : (rest : Result (Unit {0})) → Passed (guard p x >> (guard q x >> rest)) → Passed rest
  behind_two rest h = (Passed-guard x q rest (Passed-guard x p (guard q x >> rest) h).1).1

-- Families and native names are not repeated, and the concepts that are covered are the audit's.
abbrev pub IsConsistent : Policy → Audit → Type 0
IsConsistent policy audit =
    IsDistinct (family_ids policy.families)
    × ((concept : Text)
        → contains concept (covered policy.families) ≡ contains concept audit.concepts)
    × IsDistinct (native_names policy.families)

-- A naming policy that its validator accepts repeats no family and no native name, and the concepts
-- that its families cover are exactly those of the audit.
pub validate_naming_policy-IsConsistent :
    (policy : Policy) (audit : Audit)
    → validate_naming_policy policy audit ≡ ok tt
    → IsConsistent policy audit
unfolding validate_naming_policy
validate_naming_policy-IsConsistent policy audit h =
    let rest5 =
      guard (all (λ f. not (is_empty f.decision)) policy.families) assertion_error
      >> guard (is_distinct (native_names policy.families)) assertion_error in
    let rest4 =
      guard (all (λ f. not (is_empty f.canonical_native)) policy.families) assertion_error
      >> rest5 in
    let rest3 =
      guard (same_set (covered policy.families) audit.concepts) assertion_error >> rest4 in
    let rest2 = guard (is_distinct (family_ids policy.families)) assertion_error >> rest3 in
    let a =
      behind_two (agree policy.distribution audit.distribution (codes "fortsym"))
        (agree policy.sympy_version audit.sympy_version (codes "1.14.0")) assertion_error rest2 h in
    let b = Passed-guard assertion_error (is_distinct (family_ids policy.families)) rest3 a in
    let c =
      Passed-guard assertion_error (same_set (covered policy.families) audit.concepts) rest4 b.1 in
    let d =
      behind_two (all (λ f. not (is_empty f.canonical_native)) policy.families)
        (all (λ f. not (is_empty f.decision)) policy.families) assertion_error
        (guard (is_distinct (native_names policy.families)) assertion_error) c.1 in
    (
      is_distinct-IsDistinct (family_ids policy.families) b.0,
      λ concept. same_set-contains (covered policy.families) audit.concepts concept c.0,
      is_distinct-IsDistinct (native_names policy.families)
          (last-Passed assertion_error (is_distinct (native_names policy.families)) d),
    )

-- A ledger of differences that its validator accepts repeats no identifier, and the root names that
-- its semantic rows affect are exactly the supported names of the classification.
pub validate_ledger-IsDistinct :
    (ledger : Ledger) (distribution version : Text) (root_exports : List Classified)
    → validate_ledger ledger distribution version root_exports ≡ ok tt
    → IsDistinct (idents (ledger.semantic ++ ledger.implementation))
      × ((name : Text)
          → contains name (map root_of (all_affected ledger.semantic))
            ≡ contains name (supported_names root_exports))
unfolding validate_ledger
validate_ledger-IsDistinct ledger distribution version root_exports h =
    let rows = ledger.semantic ++ ledger.implementation in
    let roots = map root_of (all_affected ledger.semantic) in
    let supported = supported_names root_exports in
    let rest6 =
      guard (is_subset roots supported) assertion_error
      >> (guard
            (all (λ x. contains x.parity (codes "partial" ∷ codes "same" ∷ codes "refused" ∷ []))
              ledger.semantic)
            assertion_error
          >> (guard (all (λ x. not (is_empty x.affected)) rows) assertion_error
              >> guard
                  (all
                    (λ x.
                      not (is_empty x.sympy)
                      && (not (is_empty x.fortsym) && not (is_empty x.difference)))
                    rows)
                  assertion_error)) in
    let rest5 = guard (same_set roots supported) assertion_error >> rest6 in
    let rest4 = guard (is_distinct (idents rows)) assertion_error >> rest5 in
    let rest3 =
      guard (not (is_empty ledger.semantic) && not (is_empty ledger.implementation)) assertion_error
      >> rest4 in
    let a =
      behind_two (agree ledger.distribution distribution (codes "sympy"))
        (agree ledger.version version (codes "1.14.0")) assertion_error rest3 h in
    let b =
      Passed-guard assertion_error
        (not (is_empty ledger.semantic) && not (is_empty ledger.implementation)) rest4 a in
    let c = Passed-guard assertion_error (is_distinct (idents rows)) rest5 b.1 in
    let d = Passed-guard assertion_error (same_set roots supported) rest6 c.1 in
    (is_distinct-IsDistinct (idents rows) c.0, λ name. same_set-contains roots supported name d.0)
