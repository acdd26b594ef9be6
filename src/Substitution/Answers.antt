-- ===== src/Substitution/Answers.antt =====
-- The two caches of a substitution, over calls one after the other.
use fortsym.Base.{
  ℕ, suc, ◌≤◌, ◌≡◌, refl, sym, ap, ap₂, ◌∙◌, inl, inr, ◌⊎◌, Bool, true, not, ◌&&◌, List, [], ◌∷◌,
  All, length, Option, none, some, Eq, ◌==◌, nat_eq, pair_eq, list_eq, contains, leb, Result, ok,
  err, Bool-cases, Option-cases, beq_refl, if◌then◌else◌, arith,
}
use fortsym.Base.Dict.{Dict, keys, lookup, insert, lookup-insert, All-insert}
use fortsym.Substitution.Replace.{Rule}
use fortsym.Substitution.Guard.{
  Signature, Verdicts, without_first, keep_recent, is_safe, can_use_subs_many,
}
use fortsym.Substitution.Kept.{
  Inputs, Results, signature_of, are_same, usable, keep_made, cached_subs_many,
}

module _ {K V : Type 0} ⦃e : Eq K⦄ where
  length-insert :
      (k : K) (v : V) (d : Dict K V)
      → length (insert k v d) ≡ (if contains k (keys d) then length d else suc (length d))
  unfolding insert
  length-insert k v [] = refl
  length-insert k v ((j, w) ∷ d) = ground (arith, e.beq_iff k j, e.beq_iff j k, length-insert k v d)

  -- Eight entries at most, before and after a write.
  pub length-keep_recent :
      (k : K) (v : V) (d : Dict K V) → length d ≤ 8 → length (keep_recent k v d) ≤ 8
  length-keep_recent k v d few = elim (Bool-cases (contains k (keys d))) [
    | inl there ↦ rw there (let l = length-insert k v d in ground arith)
    | inr new ↦ elim (Bool-cases (leb 8 (length d))) [
      | inl full ↦ rw (new, full) (drop d few)
      | inr free ↦ rw (new, free) (let l = length-insert k v d in ground arith)
    ]
  ]
    where
      drop : (d : Dict K V) → length d ≤ 8 → length (insert k v (without_first d)) ≤ 8
      drop [] few = ground (arith, length-insert k v [])
      drop (entry ∷ d) few = ground (arith, length-insert k v d)

  pub All-keep_recent :
      (P : K × V → Type 0) (k : K) (v : V) (d : Dict K V)
      → P (k, v)
      → All P d
      → All P (keep_recent k v d)
  All-keep_recent P k v d p h = elim (Bool-cases (not (contains k (keys d)) && leb 8 (length d))) [
    | inl full ↦ rw full (All-insert P k v (without_first d) p (tail d h))
    | inr free ↦ rw free (All-insert P k v d p h)
  ]
    where
      tail : (d : Dict K V) → All P d → All P (without_first d)
      tail [] h = tt
      tail (entry ∷ d) h = h.1

  pub All-lookup :
      (P : K × V → Type 0) (k : K) (v : V) (d : Dict K V) → All P d → lookup k d ≡ some v → P (k, v)
  unfolding lookup
  All-lookup P k v [] h found = absurd (cc)
  All-lookup P k v ((j, w) ∷ d) h found = elim (Bool-cases (j == k)) [
    | inl same ↦
        let q : w ≡ v = cc (rw same at found) in rw (sym ((e.beq_iff j k).0 same), sym q) h.0
    | inr other ↦ All-lookup P k v d h.1 (rw other at found)
  ]

-- A verdict that was given for some pairs is given again for all pairs whose objects have the same
-- addresses, so long as it is kept: what the pairs are is not compared.
pub can_use_subs_many-stale :
    (cache : Verdicts) (pairs others : List Rule) (signature : Signature)
    → can_use_subs_many (can_use_subs_many cache pairs signature).1 others signature
      ≡ can_use_subs_many cache pairs signature
unfolding can_use_subs_many
can_use_subs_many-stale cache pairs others signature =
    elim (Option-cases (lookup signature cache)) [
      | inr (safe, kept) ↦ rw kept (rw kept refl)
      | inl new ↦
          let base : Verdicts =
            if not (contains signature (keys cache)) && leb 8 (length cache)
            then without_first cache
            else cache in
          let kept : lookup signature (insert signature (is_safe pairs) base)
              ≡ some (is_safe pairs) =
            lookup-insert signature signature (is_safe pairs) base
            ∙ ap (λ b. if b then some (is_safe pairs) else lookup signature base)
                (beq_refl signature) in
          rw new (rw kept refl)
    ]

-- A call of `subs`: the epoch, the mapping, what the native substitution gives at this call, and
-- which results have a handle then.
pub record Request (Object R : Type 0) : Type 0 where
  pub epoch : ℕ
  pub inputs : Inputs Object
  pub made : Result R
  pub has_handle : R → Bool

module _ {Object : Type 0} ⦃e : Eq Object⦄ (address : Object → ℕ) where
  are_same-inputs :
      (inputs cached : Inputs Object)
      → are_same inputs cached ≡ true
      → signature_of address inputs ≡ signature_of address cached
      → cached ≡ inputs
  unfolding are_same
  are_same-inputs [] [] h s = refl
  are_same-inputs [] (p ∷ cached) h s = absurd (cc)
  are_same-inputs (p ∷ inputs) [] h s = absurd (cc)
  are_same-inputs ((a, b) ∷ inputs) ((c, d) ∷ cached) h s =
      ap₂ (λ p l. p ∷ l)
        (ap₂ (λ x y. (x, y)) (sym ((e.beq_iff a c).0 (ground arith)))
          (sym ((e.beq_iff b d).0 (ground arith))))
        (are_same-inputs inputs cached (ground arith) (cc))

module _ {Object R : Type 0} ⦃e : Eq Object⦄ (address : Object → ℕ) where
  -- One of the calls made the result in the epoch and for the inputs.
  abbrev pub IsMade : ℕ → Inputs Object → R → List (Request Object R) → Type 0
  IsMade epoch inputs result [] = ⊥
  IsMade epoch inputs result (r ∷ earlier) =
      ((r.epoch ≡ epoch) × (r.inputs ≡ inputs) × (r.made ≡ ok result))
      ⊎ IsMade epoch inputs result earlier

  -- What a call may answer, behind earlier calls: what is made for it, or an earlier result for the
  -- same epoch and the same inputs that has a handle.
  abbrev pub IsAnswered : List (Request Object R) → Request Object R → Result R → Type 0
  IsAnswered earlier r answer =
      (answer ≡ r.made)
      ⊎ ((result : R) × (answer ≡ ok result)
          × (r.has_handle result ≡ true)
          × IsMade r.epoch r.inputs result earlier)

  abbrev pub AreAnswered :
      List (Request Object R) → List (Request Object R) → List (Result R) → Type 0
  AreAnswered earlier [] [] = Unit
  AreAnswered earlier [] (a ∷ answers) = ⊥
  AreAnswered earlier (r ∷ requests) [] = ⊥
  AreAnswered earlier (r ∷ requests) (a ∷ answers) =
      IsAnswered earlier r a × AreAnswered (r ∷ earlier) requests answers

  -- What holds of an entry of the cache.
  abbrev IsKept : List (Request Object R) → (ℕ × Signature) × (Inputs Object × R) → Type 0
  IsKept earlier ((epoch, signature), (inputs, result)) =
      (signature ≡ signature_of address inputs) × IsMade epoch inputs result earlier

  IsKept-later :
      (r : Request Object R) (earlier : List (Request Object R)) (cache : Results Object R)
      → All (IsKept earlier) cache
      → All (IsKept (r ∷ earlier)) cache
  IsKept-later r earlier [] h = tt
  IsKept-later r earlier (((epoch, signature), (inputs, result)) ∷ cache) h =
      ((h.0.0, inr h.0.1), IsKept-later r earlier cache h.1)

  usable-IsMade :
      (earlier : List (Request Object R)) (has_handle : R → Bool) (epoch : ℕ)
      (inputs : Inputs Object) (found : Option (Inputs Object × R)) (result : R)
      → ((entry : Inputs Object × R)
          → found ≡ some entry
          → IsKept earlier ((epoch, signature_of address inputs), entry))
      → usable has_handle inputs found ≡ some result
      → (has_handle result ≡ true) × IsMade epoch inputs result earlier
  usable-IsMade earlier has_handle epoch inputs none result kept h = absurd (cc)
  usable-IsMade earlier has_handle epoch inputs (some (cached, old)) result kept h =
      elim (Bool-cases (are_same inputs cached && has_handle old)) [
        | inr other ↦ absurd (cc (rw other at h))
        | inl same ↦
            let (signature, made) = kept (cached, old) refl in
            let q : old ≡ result = cc (rw same at h) in
            let as_given = are_same-inputs address inputs cached (ground arith) signature in
            rw (← q) (ground arith, rw as_given at made)
      ]

  -- The call's answer, and what stays.
  abbrev Answered :
      List (Request Object R) → Request Object R → Result R × Results Object R → Type 0
  Answered earlier r (answer, cache) =
      IsAnswered earlier r answer × All (IsKept (r ∷ earlier)) cache × (length cache ≤ 8)

  cached_subs_many-Answered :
      (earlier : List (Request Object R)) (r : Request Object R) (cache : Results Object R)
      → All (IsKept earlier) cache
      → length cache ≤ 8
      → Answered earlier r (cached_subs_many address r.has_handle r.epoch r.inputs r.made cache)
  unfolding cached_subs_many
  cached_subs_many-Answered earlier r cache h few =
      let key : ℕ × Signature = (r.epoch, signature_of address r.inputs) in
      let later = IsKept-later r earlier cache h in
      elim (Option-cases (usable r.has_handle r.inputs (lookup key cache))) [
        | inr (result, hit) ↦
            let (open_still, made) =
              usable-IsMade earlier r.has_handle r.epoch r.inputs (lookup key cache) result
                (λ entry. All-lookup (IsKept earlier) key entry cache h) hit in
            rw hit (inr (result, refl, open_still, made), later, few)
        | inl miss ↦ rw miss (filled r.made refl)
      ]
    where
      filled :
          (m : Result R)
          → r.made ≡ m
          → Answered earlier r (keep_made (r.epoch, signature_of address r.inputs) r.inputs m cache)
      filled (err x) same = (inl (sym same), IsKept-later r earlier cache h, few)
      filled (ok result) same = (
        inl (sym same),
        All-keep_recent (IsKept (r ∷ earlier)) (r.epoch, signature_of address r.inputs)
            (r.inputs, result) cache (refl, inl (refl, refl, same))
            (IsKept-later r earlier cache h),
        length-keep_recent (r.epoch, signature_of address r.inputs) (r.inputs, result) cache few,
      )

  -- The answers of calls one after the other, with the cache behind them.
  unfoldable pub answer_all :
      List (Request Object R) → Results Object R → List (Result R) × Results Object R
  unfolding cached_subs_many
  answer_all [] cache = ([], cache)
  answer_all (r ∷ requests) cache =
      let (answer, later) = cached_subs_many address r.has_handle r.epoch r.inputs r.made cache in
      let (answers, last) = answer_all requests later in (answer ∷ answers, last)

  answer_all-kept :
      (earlier requests : List (Request Object R)) (cache : Results Object R)
      → All (IsKept earlier) cache
      → length cache ≤ 8
      → AreAnswered earlier requests (answer_all requests cache).0
        × (length (answer_all requests cache).1 ≤ 8)
  unfolding answer_all
  answer_all-kept earlier [] cache h few = (tt, few)
  answer_all-kept earlier (r ∷ requests) cache h few =
      let (right, kept, still) = cached_subs_many-Answered earlier r cache h few in
      let (rest, last) =
        answer_all-kept (r ∷ earlier) requests
          (cached_subs_many address r.has_handle r.epoch r.inputs r.made cache).1 kept still in
      ((right, rest), last)

  -- Whatever the addresses are, each call of a sequence answers with what the native substitution
  -- gives for it, exceptions included, or with a result that has a handle then and that an earlier
  -- call made in the same epoch for the same inputs; and at most eight results stay.
  pub answer_all-AreAnswered :
      (requests : List (Request Object R))
      → AreAnswered [] requests (answer_all requests []).0 × (length (answer_all requests []).1 ≤ 8)
  answer_all-AreAnswered requests = answer_all-kept [] requests [] tt (omega arith)
