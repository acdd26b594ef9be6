-- ===== src/Printing/Laws.antt =====
-- Texts, their pieces, and the characters of both.
use fortsym.Base.{
  ℕ, zero, suc, ◌<◌, ◌≡◌, refl, sym, ap, ◌⊎◌, inl, inr, List, [], ◌∷◌, ◌++◌, length, length-append,
  Option, none, some, ◌==◌, nat_eq, list_eq, arith, Bool-cases,
}
use fortsym.Base.Int.{ℤ, pos, int_eq}
use fortsym.Base.Text.{Text, codes, after_prefix-append, join}
use fortsym.Printing.Split.{
  Round, stop, take, cut, other_round, power_at, separator_at, round, with_piece, split_loop,
  split_top_level,
}
use mathlib.Core.List.{append_assoc, append-nil}

-- What a round does to the text behind the index.
abbrev Makes : Text → Text → Round → Type 0
Makes separator s stop = s ≡ []
Makes separator s (take moved rest d) = (moved ++ rest ≡ s) × (length rest < length s)
Makes separator s (cut rest) = separator ++ rest ≡ s

other_round-Makes :
    (separator : Text) (c : ℕ) (s : Text) (d : ℤ) (p q : Option Text)
    → ((rest : Text) → p ≡ some rest → codes "**" ++ rest ≡ c ∷ s)
    → ((rest : Text) → q ≡ some rest → separator ++ rest ≡ c ∷ s)
    → Makes separator (c ∷ s) (other_round c s d p q)
other_round-Makes separator c s d (some rest) q h k =
    let whole = h rest refl in (whole, ground (arith, ap length whole))
other_round-Makes separator c s d none (some rest) h k = k rest refl
other_round-Makes separator c s d none none h k = (refl, omega arith)

power_at-append :
    (separator s rest : Text) → power_at separator s ≡ some rest → codes "**" ++ rest ≡ s
power_at-append separator s rest h = elim (Bool-cases (separator == codes "*")) [
  | inl star ↦ after_prefix-append (codes "**") s rest (rw star at h)
  | inr other ↦ absurd (cc (rw other at h))
]

separator_at-append :
    (separator s : Text) (d : ℤ) (rest : Text)
    → separator_at separator s d ≡ some rest
    → separator ++ rest ≡ s
separator_at-append separator s d rest h = elim (Bool-cases (d == pos 0)) [
  | inl top ↦ after_prefix-append separator s rest (rw top at h)
  | inr deep ↦ absurd (cc (rw deep at h))
]

round-Makes : (separator s : Text) (d : ℤ) → Makes separator s (round separator s d)
unfolding round
round-Makes separator [] d = refl
round-Makes separator (c ∷ s) d = elim (Bool-cases (c == b'(')) [
  | inl opens ↦ rw opens (refl, omega arith)
  | inr more ↦ elim (Bool-cases (c == b')')) [
    | inl closes ↦ rw (more, closes) (refl, omega arith)
    | inr other ↦
        rw (more, other)
          (other_round-Makes separator c s d (power_at separator (c ∷ s))
            (separator_at separator (c ∷ s) d) (power_at-append separator (c ∷ s))
            (separator_at-append separator (c ∷ s) d))
  ]
]

Round-cases :
    (r : Round)
    → (r ≡ stop)
      ⊎ (((moved : Text) × (rest : Text) × (d : ℤ) × (r ≡ take moved rest d))
          ⊎ ((rest : Text) × (r ≡ cut rest)))
Round-cases stop = inl refl
Round-cases (take moved rest d) = inr (inl (moved, rest, d, refl))
Round-cases (cut rest) = inr (inr (rest, refl))

-- The pieces joined by the separator are the whole text, and there is at least one.
abbrev Joins : Text → Text → Option (List Text) → Type 0
Joins separator whole none = ⊥
Joins separator whole (some []) = ⊥
Joins separator whole (some (p ∷ pieces)) = join separator (p ∷ pieces) ≡ whole

with_piece-Joins :
    (separator piece rest : Text) (o : Option (List Text))
    → Joins separator rest o
    → Joins separator (piece ++ (separator ++ rest)) (with_piece piece o)
with_piece-Joins separator piece rest none h = h
with_piece-Joins separator piece rest (some []) h = absurd h
with_piece-Joins separator piece rest (some (p ∷ pieces)) h = ap (λ t. piece ++ (separator ++ t)) h

split_loop-Joins :
    (separator : Text) (rounds : ℕ) (s piece : Text) (d : ℤ)
    → 0 < length separator
    → length s < rounds
    → Joins separator (piece ++ s) (split_loop separator rounds s piece d)
unfolding split_loop
split_loop-Joins separator zero s piece d n h = absurd (omega arith)
split_loop-Joins separator (suc rounds) s piece d n h =
    let made = round-Makes separator s d in
    elim (Round-cases (round separator s d)) [
      | inl e ↦ let empty = rw e at made in rw (split_loop, e, empty) (sym (append-nil piece))
      | inr (inl (moved, rest, d', e)) ↦
          let parts = rw e at made in
          let tail =
            split_loop-Joins separator rounds rest (piece ++ moved) d' n (omega (arith, parts.1)) in
          rw (split_loop, e) (rw (append_assoc piece moved rest, parts.0) at tail)
      | inr (inr (rest, e)) ↦
          let parts = rw e at made in
          let tail =
            split_loop-Joins separator rounds rest [] d n
              (ground (arith, ap length parts, length-append separator rest)) in
          let whole =
            with_piece-Joins separator piece rest (split_loop separator rounds rest [] d) tail in
          rw (split_loop, e) (rw parts at whole)
    ]

some_of_Joins :
    (separator whole : Text) (o : Option (List Text))
    → Joins separator whole o
    → (pieces : List Text) × (o ≡ some pieces) × (join separator pieces ≡ whole)
some_of_Joins separator whole none h = absurd h
some_of_Joins separator whole (some []) h = absurd h
some_of_Joins separator whole (some (p ∷ pieces)) h = (p ∷ pieces, refl, h)

-- With a separator that is not empty, `_split_top_level` ends within a round for each character and
-- one for the end, and the pieces that it returns, joined by the separator, are the text.
pub split_top_level-join :
    (text separator : Text)
    → 0 < length separator
    → (pieces : List Text) × (split_top_level text separator ≡ some pieces)
      × (join separator pieces ≡ text)
unfolding split_top_level
split_top_level-join text separator n =
    some_of_Joins separator text (split_loop separator (suc (length text)) text [] (pos 0))
      (split_loop-Joins separator (suc (length text)) text [] (pos 0) n (omega arith))
