-- ===== src/Triage/Passing.antt =====
-- `parse_shards` on the texts that `bisect` writes.
use fortsym.Base.{
  ℕ, suc, ◌<◌, ◌≡◌, refl, sym, ap, ◌∙◌, inl, inr, true, false, ◌||◌, List, [], ◌∷◌, All, map, keep,
  all, any, leb, length, ok, err, value_error, ◌==◌, nat_eq, list_eq, contains, Bool-cases,
  if◌then◌else◌, arith,
}
use fortsym.Base.Order.{sorted, place, nat_order}
use fortsym.Base.Text.{codes}
use fortsym.Triage.Shards.{
  shard_count, distinct_numbers, split, in_count, is_filled, parse_shards, show_number,
  shard_argument,
}
use fortsym.Triage.Decimals.{read_decimal-digits}
use fortsym.Triage.Lists.{is_mark, strip_marks, show-filled, ints-show_number, split-join, marks}

-- Each shard is below the next.
abbrev pub IsIncreasing : List ℕ → Type 0
IsIncreasing [] = Unit
IsIncreasing (n ∷ []) = Unit
IsIncreasing (n ∷ m ∷ l) = (n < m) × IsIncreasing (m ∷ l)

below : (n m : ℕ) (l : List ℕ) → n < m → IsIncreasing (m ∷ l) → contains n (m ∷ l) ≡ false
below n m [] h i = ground arith
below n m (k ∷ l) h i = ground (arith, below n k l (omega (arith, h, i.0)) i.1)

IsIncreasing-tail : (n : ℕ) (l : List ℕ) → IsIncreasing (n ∷ l) → IsIncreasing l
IsIncreasing-tail n [] h = tt
IsIncreasing-tail n (m ∷ l) h = h.1

distinct_increasing : (l : List ℕ) → IsIncreasing l → distinct_numbers l ≡ l
distinct_increasing [] h = refl
distinct_increasing (n ∷ []) h = refl
distinct_increasing (n ∷ m ∷ l) h = rw (below n m l h.0 h.1, distinct_increasing (m ∷ l) h.1) refl

sorted_increasing : (l : List ℕ) → IsIncreasing l → sorted l ≡ l
unfolding sorted place
sorted_increasing [] h = refl
sorted_increasing (n ∷ []) h = refl
sorted_increasing (n ∷ m ∷ l) h =
    let le : leb n m ≡ true = ground (arith, h.0) in
    ap (place n) (sorted_increasing (m ∷ l) h.1) ∙ rw le refl

none_out : (l : List ℕ) → All (λ n. n < 16) l → any (leb shard_count) l ≡ false
none_out [] h = refl
none_out (n ∷ l) h = ground (arith, h.0, none_out l h.1)

keep_filled : (l : List ℕ) → keep is_filled (map show_number l) ≡ map show_number l
keep_filled [] = refl
keep_filled (n ∷ l) = rw (show-filled n, keep_filled l) refl

-- The text is neither empty nor "all".
plain :
    (n : ℕ) (l : List ℕ)
    → (shard_argument (n ∷ l) == [] || shard_argument (n ∷ l) == codes "all") ≡ false
unfolding split
plain n l = elim (Bool-cases (shard_argument (n ∷ l) == [])) [
  | inl empty ↦
      let e : shard_argument (n ∷ l) ≡ [] = (list_eq.beq_iff (shard_argument (n ∷ l)) []).0 empty in
      let q : map show_number (n ∷ l) ≡ [] ∷ [] = sym (split-join n l) ∙ ap split e in
      let p : show_number n ≡ [] = cc q in
      absurd (omega (arith, (read_decimal-digits (suc n) n (omega arith)).2, ap length p))
  | inr filled ↦ elim (Bool-cases (shard_argument (n ∷ l) == codes "all")) [
    | inl every ↦
        let p : shard_argument (n ∷ l) ≡ codes "all" =
          (list_eq.beq_iff (shard_argument (n ∷ l)) (codes "all")).0 every in
        absurd (apart (sym (marks n l) ∙ ap (all is_mark) p))
    | inr other ↦ rw (filled, other) refl
  ]
]
  where
    apart : true ≡ false → ⊥
    apart h = cc

-- The shards that `bisect` passes on, in increasing order, below 16 and at least one, are those that
-- the `step` command reads.
pub parse_shards-shard_argument :
    (n : ℕ) (l : List ℕ)
    → IsIncreasing (n ∷ l)
    → All (λ k. k < 16) (n ∷ l)
    → parse_shards (shard_argument (n ∷ l)) ≡ ok (n ∷ l)
unfolding parse_shards
parse_shards-shard_argument n l h below_count =
    rw
      (
        strip_marks (shard_argument (n ∷ l)) (marks n l),
        plain n l,
        split-join n l,
        keep_filled (n ∷ l),
        ints-show_number (n ∷ l),
      )
      (ap (λ r. in_count (sorted r)) (distinct_increasing (n ∷ l) h)
        ∙ ap in_count (sorted_increasing (n ∷ l) h)
        ∙ ap (λ b. if b then err value_error else ok (n ∷ l)) (none_out (n ∷ l) below_count))
