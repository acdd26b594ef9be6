-- ===== src/Declarations/Signature.antt =====
-- `Orientation` and `Signature` of python/fortsym/__init__.py.
use fortsym.Base.{
  ℕ, suc, ◌+◌, ◌≤◌, ◌≡◌, refl, ◌↔◌, ◌⊎◌, Bool, true, false, ◌&&◌, ◌||◌, not, List, [], ◌∷◌, All,
  arith, Result, ok, err, value_error, ◌==◌, nat_eq, contains, length, any, leb, if◌then◌else◌,
}
use fortsym.Base.Int.{ℤ, pos, negsuc, int_eq, int_beq_iff}

abbrev pub is_sign : ℤ → Bool
is_sign v = contains v (negsuc 0 ∷ pos 1 ∷ [])

pub record Orientation : Type 0 where
  pub value : ℤ

-- `Orientation(value)`
unfoldable pub orientation : ℤ → Result Orientation
orientation v = if is_sign v then ok (record { value = v }) else err value_error

pub record Signature : Type 0 where
  pub values : List ℤ

-- `Signature(values)`
unfoldable pub signature : List ℤ → Result Signature
signature values =
    if not (leb 1 (length values) && leb (length values) 16) || any (λ v. not (is_sign v)) values
    then err value_error
    else ok (record { values = values })

-- `tuple.count`
abbrev pub count : ℤ → List ℤ → ℕ
count v [] = 0
count v (x ∷ xs) = if x == v then suc (count v xs) else count v xs

abbrev pub dimension : Signature → ℕ
dimension s = length s.values

abbrev pub positive_count : Signature → ℕ
positive_count s = count (pos 1) s.values

abbrev pub negative_count : Signature → ℕ
negative_count s = count (negsuc 0) s.values

unfoldable pub is_lorentzian : Signature → Bool
is_lorentzian s = leb 2 (dimension s) && contains 1 (positive_count s ∷ negative_count s ∷ [])

abbrev pub IsSignValue : ℤ → Type 0
IsSignValue v = (v ≡ pos 1) ⊎ (v ≡ negsuc 0)

signs_iff : (values : List ℤ) → (any (λ v. not (is_sign v)) values ≡ false) ↔ All IsSignValue values
signs_iff [] = (λ _. tt, λ _. refl)
signs_iff (v ∷ values) =
    ground (arith, signs_iff values, int_beq_iff v (pos 1), int_beq_iff v (negsuc 0))

counts-add :
    (values : List ℤ)
    → All IsSignValue values
    → count (pos 1) values + count (negsuc 0) values ≡ length values
counts-add [] h = refl
counts-add (v ∷ values) h = ground (arith, counts-add values h.1)

-- A signature is accepted exactly when it has one to sixteen entries, each of them 1 or -1, and
-- then it keeps them as they are.
pub signature_iff :
    (values : List ℤ) (s : Signature)
    → (signature values ≡ ok s)
      ↔ ((s.values ≡ values) × (1 ≤ length values) × (length values ≤ 16) × All IsSignValue values)
unfolding signature
signature_iff values s = ground (arith, signs_iff values)

-- In an accepted signature the positive and the negative entries are all there are; it is
-- Lorentzian exactly when it has at least two entries of which one, or all but one, is positive.
pub signature_counts :
    (values : List ℤ) (s : Signature)
    → signature values ≡ ok s
    → (positive_count s + negative_count s ≡ dimension s)
      × ((is_lorentzian s ≡ true)
          ↔ ((2 ≤ dimension s) × ((positive_count s ≡ 1) ⊎ (positive_count s + 1 ≡ dimension s))))
unfolding is_lorentzian
signature_counts values s h =
    let v = (signature_iff values s).0 h in
    let total = counts-add s.values (rw v.0 v.3) in (total, ground arith)
