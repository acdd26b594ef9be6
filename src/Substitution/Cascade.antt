-- ===== src/Substitution/Cascade.antt =====
-- A key that is the call of another key's new value.
use fortsym.Base.{
  String, ◌≡◌, refl, ap, ◌∙◌, inl, inr, true, false, List, [], ◌∷◌, none, some, ◌==◌, nat_eq,
  Bool-cases, if◌then◌else◌, arith,
}
use fortsym.Handles.{Term, Terms, add, func, nil, cons}
use fortsym.Substitution.Replace.{Rule, term_eq, or_down, replace_all, replace_terms, replace_each}
use fortsym.Substitution.Guard.{is_atomic, is_safe}

abbrev pub call : String → Term → Term
call f t = func f (cons t nil)

-- The key that has been replaced is the argument of the second key.
abbrev pub nested : String → Terms → Term → Term → List Rule
nested f ts a w = (add ts, a) ∷ (call f a, w) ∷ []

atom_other : (t u : Term) → is_atomic t ≡ true → is_atomic u ≡ false → (t == u) ≡ false
atom_other t u h g = elim (Bool-cases (t == u)) [
  | inl same ↦ absurd (ground (arith, ap is_atomic ((term_eq.beq_iff t u).0 same)))
  | inr other ↦ other
]

term_refl : (t : Term) → (t == t) ≡ true
term_refl t = (term_eq.beq_iff t t).1 refl

nested-is_safe :
    (f : String) (ts : Terms) (a w : Term)
    → is_atomic a ≡ true
    → is_atomic w ≡ true
    → is_safe (nested f ts a w) ≡ true
unfolding is_safe
nested-is_safe f ts a w h g = ground (
  arith,
  atom_other a (add ts) h refl,
  atom_other a (call f a) h refl,
  atom_other w (add ts) g refl,
  atom_other w (call f a) g refl,
)

call_sum :
    (f : String) (ts : Terms) (a : Term)
    → is_atomic a ≡ true
    → (call f (add ts) == call f a) ≡ false
call_sum f ts a h = elim (Bool-cases (call f (add ts) == call f a)) [
  | inr other ↦ other
  | inl same ↦
      let p : add ts ≡ a = cc ((term_eq.beq_iff (call f (add ts)) (call f a)).0 same) in
      absurd (ground (arith, ap is_atomic p))
]

replace_self_sum : (ts : Terms) (a : Term) → replace_all ((add ts, a) ∷ []) (add ts) ≡ a
unfolding replace_all
replace_self_sum ts a =
    ap (λ b. or_down (if b then some a else none) (add (replace_terms ((add ts, a) ∷ []) ts)))
      (term_refl (add ts))

replace_self_call : (f : String) (a w : Term) → replace_all ((call f a, w) ∷ []) (call f a) ≡ w
unfolding replace_all
replace_self_call f a w =
    ap (λ b. or_down (if b then some w else none) (call f (replace_all ((call f a, w) ∷ []) a)))
      (term_refl (call f a))

each_nested :
    (f : String) (ts : Terms) (a w : Term) → replace_each (nested f ts a w) (call f (add ts)) ≡ w
unfolding replace_each replace_all
each_nested f ts a w =
    ap (λ t. replace_all ((call f a, w) ∷ []) (call f t)) (replace_self_sum ts a)
    ∙ replace_self_call f a w

-- Two pairs, a sum for an atom and a call of that atom for another: the verdict is that they are safe
-- to be replaced at once, but on the call of the sum one after the other gives the second atom, and
-- all at once gives the call of the first.
pub is_safe-cascade :
    (f : String) (ts : Terms) (a w : Term)
    → is_atomic a ≡ true
    → is_atomic w ≡ true
    → (is_safe (nested f ts a w) ≡ true)
      × (replace_each (nested f ts a w) (call f (add ts)) ≡ w)
      × (replace_all (nested f ts a w) (call f (add ts)) ≡ call f a)
unfolding replace_each replace_all
is_safe-cascade f ts a w h g = (
  nested-is_safe f ts a w h g,
  each_nested f ts a w,
  rw (call_sum f ts a h, term_refl (add ts)) refl,
)
