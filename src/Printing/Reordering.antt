-- ===== src/Printing/Reordering.antt =====
-- The characters of a text whose factors are reordered.
use fortsym.Base.{
  ℕ, ◌+◌, ◌*◌, ◌≡◌, refl, sym, ap, ap₂, ◌∙◌, inl, inr, List, [], ◌∷◌, ◌++◌, length, Option, some,
  ◌==◌, nat_eq, list_eq, list_beq_iff, arith, if◌then◌else◌, Bool-cases, Option-cases,
}
use fortsym.Base.Text.{Text, codes, join}
use fortsym.Printing.Split.{
  first_numeric, is_numeric, remove, is_single, reorder, render, pretty_expanded,
}
use fortsym.Printing.Laws.{split_top_level-join}

-- How often a character occurs.
abbrev pub occurrences : ℕ → Text → ℕ
occurrences c [] = 0
occurrences c (d ∷ s) = (if d == c then 1 else 0) + occurrences c s

occurrences-append :
    (c : ℕ) (s t : Text) → occurrences c (s ++ t) ≡ occurrences c s + occurrences c t
occurrences-append c [] t = omega arith
occurrences-append c (d ∷ s) t = omega (arith, occurrences-append c s t)

-- What the pieces hold together.
abbrev total : ℕ → List Text → ℕ
total c [] = 0
total c (p ∷ pieces) = occurrences c p + total c pieces

occurrences-join :
    (c : ℕ) (separator p : Text) (pieces : List Text)
    → occurrences c (join separator (p ∷ pieces))
      ≡ total c (p ∷ pieces) + length pieces * occurrences c separator
occurrences-join c separator p [] = omega arith
occurrences-join c separator p (q ∷ pieces) = grind (
  arith,
  occurrences-append c p (separator ++ join separator (q ∷ pieces)),
  occurrences-append c separator (join separator (q ∷ pieces)),
  occurrences-join c separator q pieces,
)

-- A list that holds the characters of another, in as many pieces.
abbrev Same : ℕ → List Text → List Text → Type 0
Same c l m = (length l ≡ length m) × (total c l ≡ total c m)

join-Same :
    (c : ℕ) (separator : Text) (l m : List Text)
    → Same c l m
    → occurrences c (join separator l) ≡ occurrences c (join separator m)
join-Same c separator [] [] h = refl
join-Same c separator [] (q ∷ m) h = absurd (omega (arith, h.0))
join-Same c separator (p ∷ l) [] h = absurd (omega (arith, h.0))
join-Same c separator (p ∷ l) (q ∷ m) h =
    let n : length l ≡ length m = omega (arith, h.0) in
    occurrences-join c separator p l
    ∙ ap₂ (λ a b. a + b * occurrences c separator) h.1 n
    ∙ sym (occurrences-join c separator q m)

some_same : (g f : Text) → Path (Option Text) (some g) (some f) → g ≡ f
some_same g f h = cc

remove-Same :
    (c : ℕ) (f : Text) (factors : List Text)
    → first_numeric factors ≡ some f
    → Same c (f ∷ remove f factors) factors
remove-Same c f [] h = absurd (cc)
remove-Same c f (g ∷ factors) h = elim (Bool-cases (g == f)) [
  | inl same ↦ let e : g ≡ f = (list_beq_iff g f).0 same in rw (same, e) (omega arith, omega arith)
  | inr other ↦ elim (Bool-cases (is_numeric g)) [
    | inl here ↦
        let e : g ≡ f = some_same g f (rw here at h) in
        absurd (ground (arith, (list_beq_iff g f).1 e))
    | inr later ↦
        let rest = remove-Same c f factors (rw later at h) in
        rw other (omega (arith, rest.0), omega (arith, rest.1))
  ]
]

reorder-Same : (c : ℕ) (factors : List Text) → Same c (reorder factors) factors
unfolding reorder
reorder-Same c factors = elim (Option-cases (first_numeric factors)) [
  | inl e ↦ rw e (refl, refl)
  | inr (f, e) ↦ elim (Bool-cases (is_single factors)) [
    | inl one ↦ rw (e, one) (refl, refl)
    | inr more ↦ rw (e, more) (remove-Same c f factors e)
  ]
]

reorder-join :
    (c : ℕ) (separator : Text) (factors : List Text)
    → occurrences c (join separator (reorder factors)) ≡ occurrences c (join separator factors)
reorder-join c separator factors =
    join-Same c separator (reorder factors) factors (reorder-Same c factors)

render-Same :
    (terms : List Text)
    → (shown : List Text) × (render terms ≡ some shown) × ((c : ℕ) → Same c shown terms)
unfolding render
render-Same [] = ([], refl, λ c. (refl, refl))
render-Same (term ∷ terms) =
    let (factors, made, whole) = split_top_level-join term (codes "*") (omega arith) in
    let (shown, rest, same) = render-Same terms in
    (
      join (codes "*") (reorder factors) ∷ shown,
      rw (render, made, rest) refl,
      λ c. (
        omega (arith, (same c).0),
        omega (arith, (same c).1, reorder-join c (codes "*") factors, ap (occurrences c) whole),
      ),
    )

-- `_pretty_expanded` returns, and what it returns holds every character as often as the text does: it
-- only moves factors.
pub pretty_expanded-occurrences :
    (text : Text)
    → (shown : Text) × (pretty_expanded text ≡ some shown)
      × ((c : ℕ) → occurrences c shown ≡ occurrences c text)
unfolding pretty_expanded
pretty_expanded-occurrences text =
    let (terms, made, whole) = split_top_level-join text (codes " + ") (omega arith) in
    let (shown, rest, same) = render-Same terms in
    (
      join (codes " + ") shown,
      rw (made, rest) refl,
      λ c. join-Same c (codes " + ") shown terms (same c) ∙ ap (occurrences c) whole,
    )
