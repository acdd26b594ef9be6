-- ===== src/Triage/Decimals.antt =====
-- The digits of a number, and what is read from them.
use fortsym.Base.{
  all-append, ℕ, zero, suc, ◌+◌, ◌-◌, ◌*◌, ◌/◌, ◌%◌, ◌≤◌, ◌<◌, ◌≡◌, refl, ◌∙◌, inl, inr, true, [],
  ◌∷◌, ◌++◌, all, ltb, length, length-append, nat_eq, Bool-cases, arith,
}
use fortsym.Base.Text.{Text}
use fortsym.Triage.Shards.{is_decimal, read_decimal, digits}

read_decimal-append :
    (n : ℕ) (s : Text) (c : ℕ) → read_decimal n (s ++ c ∷ []) ≡ 10 * read_decimal n s + (c - 48)
unfolding read_decimal
read_decimal-append n [] c = refl
read_decimal-append n (d ∷ s) c = read_decimal-append (10 * n + (d - 48)) s c

decimal_digit : (d : ℕ) → d < 10 → is_decimal (48 + d) ≡ true
decimal_digit d h = ground arith

-- With enough rounds the digits are decimal, there is one at least, and they are read as the number.
pub read_decimal-digits :
    (rounds n : ℕ)
    → n < rounds
    → (read_decimal 0 (digits rounds n) ≡ n)
      × (all is_decimal (digits rounds n) ≡ true)
      × (0 < length (digits rounds n))
unfolding digits read_decimal
read_decimal-digits zero n h = absurd (omega (arith, h))
read_decimal-digits (suc rounds) n h = elim (Bool-cases (ltb n 10)) [
  | inl one_digit ↦
      let small : n < 10 = ground arith in
      rw one_digit (omega arith, rw (decimal_digit n small) refl, omega arith)
  | inr more ↦
      let big : 10 ≤ n = ground arith in
      let (read, decimal, some_digit) =
        read_decimal-digits rounds (n / 10) (omega (arith, h, big)) in
      rw more (
        read_decimal-append 0 (digits rounds (n / 10)) (48 + n % 10) ∙ omega (arith, read),
        all-append is_decimal (digits rounds (n / 10)) ((48 + n % 10) ∷ [])
            ∙ rw (decimal, decimal_digit (n % 10) (omega arith)) refl,
        rw (length-append (digits rounds (n / 10)) ((48 + n % 10) ∷ [])) (omega arith),
      )
]
