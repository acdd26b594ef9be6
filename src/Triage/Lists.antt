-- ===== src/Triage/Lists.antt =====
-- Texts of digits and commas.
use fortsym.Base.{
  all-append, ℕ, suc, ◌<◌, ◌≡◌, refl, ap, ◌∙◌, inl, inr, Bool, true, false, not, ◌||◌, List, [],
  ◌∷◌, ◌++◌, map, all, length, ok, ◌==◌, nat_eq, list_eq, Bool-cases, arith,
}
use fortsym.Base.Order.{nat_order}
use fortsym.Base.Text.{Text, is_space, strip_left, strip}
use fortsym.Triage.Shards.{
  is_decimal, read_decimal, signed, int_of, ints, split, is_filled, show_number, shard_argument,
}
use fortsym.Triage.Decimals.{read_decimal-digits}
use mathlib.Core.List.{reverse, reverse-append, reverse-reverse}

abbrev pub is_mark : ℕ → Bool
is_mark c = is_decimal c || c == b','

abbrev is_visible : ℕ → Bool
is_visible c = not (is_space c)

all-reverse : (p : ℕ → Bool) (s : Text) → all p (reverse s) ≡ all p s
all-reverse p [] = refl
all-reverse p (c ∷ s) =
    ap (all p) (reverse-append (c ∷ []) s)
    ∙ all-append p (reverse s) (c ∷ [])
    ∙ ground (arith, all-reverse p s)

strip_left-visible : (s : Text) → all is_visible s ≡ true → strip_left s ≡ s
unfolding strip_left
strip_left-visible [] h = refl
strip_left-visible (c ∷ s) h = elim (Bool-cases (is_space c)) [
  | inl space ↦ absurd (cc (rw space at h))
  | inr other ↦ rw other refl
]

strip-visible : (s : Text) → all is_visible s ≡ true → strip s ≡ s
unfolding strip
strip-visible s h =
    ap (λ t. reverse (strip_left (reverse t))) (strip_left-visible s h)
    ∙ ap reverse (strip_left-visible (reverse s) (all-reverse is_visible s ∙ h))
    ∙ reverse-reverse s

mark_visible : (c : ℕ) → is_mark c ≡ true → is_visible c ≡ true
mark_visible c h = ground arith

marks_visible : (s : Text) → all is_mark s ≡ true → all is_visible s ≡ true
marks_visible [] h = refl
marks_visible (c ∷ s) h = ground (arith, mark_visible c, marks_visible s)

decimals_marks : (s : Text) → all is_decimal s ≡ true → all is_mark s ≡ true
decimals_marks [] h = refl
decimals_marks (c ∷ s) h = ground (arith, decimals_marks s)

signed-decimals :
    (s : Text) → all is_decimal s ≡ true → 0 < length s → signed s ≡ ok (read_decimal 0 s)
signed-decimals [] h n = absurd (omega arith)
signed-decimals (c ∷ s) h n =
    let plus : (c == b'+') ≡ false = ground arith in
    let minus : (c == b'-') ≡ false = ground arith in rw (plus, minus, h) refl

-- `int(str(n))`
int_of-show_number : (n : ℕ) → int_of (show_number n) ≡ ok n
int_of-show_number n =
    let (read, decimal, some_digit) = read_decimal-digits (suc n) n (omega arith) in
    ap signed (
      strip-visible (show_number n)
        (marks_visible (show_number n) (decimals_marks (show_number n) decimal)))
    ∙ signed-decimals (show_number n) decimal some_digit
    ∙ ap ok read

pub ints-show_number : (l : List ℕ) → ints (map show_number l) ≡ ok l
unfolding ints
ints-show_number [] = refl
ints-show_number (n ∷ l) = rw (int_of-show_number n, ints-show_number l) refl

split-decimals : (s : Text) → all is_decimal s ≡ true → split s ≡ s ∷ []
unfolding split
split-decimals [] h = refl
split-decimals (c ∷ s) h =
    let other : (c == b',') ≡ false = ground arith in
    rw (other, split-decimals s (ground arith)) refl

split-append : (s rest : Text) → all is_decimal s ≡ true → split (s ++ b',' ∷ rest) ≡ s ∷ split rest
unfolding split
split-append [] rest h = refl
split-append (c ∷ s) rest h =
    let other : (c == b',') ≡ false = ground arith in
    rw (other, split-append s rest (ground arith)) refl

abbrev decimals : ℕ → Bool
decimals n = all is_decimal (show_number n)

show-decimals : (n : ℕ) → decimals n ≡ true
show-decimals n = (read_decimal-digits (suc n) n (omega arith)).1

pub split-join : (n : ℕ) (l : List ℕ) → split (shard_argument (n ∷ l)) ≡ map show_number (n ∷ l)
split-join n [] = split-decimals (show_number n) (show-decimals n)
split-join n (m ∷ l) =
    split-append (show_number n) (shard_argument (m ∷ l)) (show-decimals n)
    ∙ ap (λ r. show_number n ∷ r) (split-join m l)

pub marks : (n : ℕ) (l : List ℕ) → all is_mark (shard_argument (n ∷ l)) ≡ true
marks n [] = decimals_marks (show_number n) (show-decimals n)
marks n (m ∷ l) =
    all-append is_mark (show_number n) (b',' ∷ shard_argument (m ∷ l))
    ∙ rw (decimals_marks (show_number n) (show-decimals n)) (marks m l)

pub strip_marks : (s : Text) → all is_mark s ≡ true → strip s ≡ s
strip_marks s h = strip-visible s (marks_visible s h)

-- No number is written as nothing.
pub show-filled : (n : ℕ) → is_filled (show_number n) ≡ true
show-filled n =
    ap (λ s. not (s == []))
      (strip_marks (show_number n) (decimals_marks (show_number n) (show-decimals n)))
    ∙ some_digit (show_number n) (read_decimal-digits (suc n) n (omega arith)).2
  where
    some_digit : (s : Text) → 0 < length s → not (s == []) ≡ true
    some_digit [] h = absurd (omega arith)
    some_digit (c ∷ s) h = refl
