-- ===== src/Substitution/Replace.antt =====
-- Replacement in a term, as src/core/fortsym_subs.f90 describes it: a match is tested before going
-- down, and what is put in is not visited. The native constructors that normalise are left out.
use native.Mathlib.Decide.{ℕ_discrete}
use fortsym.Base.{
  String, ◌≡◌, ◌↔◌, refl, Bool, true, false, List, [], ◌∷◌, Option, none, some, Eq, ◌==◌, string_eq,
  if◌then◌else◌,
}
use fortsym.Handles.{Term, Terms, number, symbol, constant, add, mul, pow, func, nil, cons}

abbrev pub decided_by : {A : Type 0} (b : Bool) → (b ≡ true) ↔ A → Dec A
decided_by true h = yes (h.0 refl)
decided_by false h = no (λ a. false_true (h.1 a))
  where
    false_true : false ≡ true → ⊥
    false_true h = cc

abbrev pub is_yes : {A : Type 0} → Dec A → Bool
is_yes (yes p) = true
is_yes (no p) = false

pub is_yes_iff : {A : Type 0} (d : Dec A) → (is_yes d ≡ true) ↔ A
is_yes_iff (yes p) = (λ _. p, λ _. refl)
is_yes_iff (no p) = (λ h. absurd (cc), λ a. absurd (p a))

abbrev pub string_decide : Discrete String
string_decide s t = decided_by (s == t) (string_eq.beq_iff s t)

abbrev pub Term-Discrete : Discrete Term
Term-Discrete = hlevel (ℕ_discrete, string_decide)

instance abbrev pub term_eq : Eq Term
term_eq = record {
  beq = λ t u. is_yes (Term-Discrete t u);
  beq_iff = λ t u. is_yes_iff (Term-Discrete t u);
}

-- A key and what it is replaced by.
abbrev pub Rule : Type 0
Rule = Term × Term

-- The first key that is the term itself.
abbrev pub match_of : List Rule → Term → Option Term
match_of [] t = none
match_of ((old, new) ∷ pairs) t = let rest = match_of pairs t in if t == old then some new else rest

abbrev pub or_down : Option Term → Term → Term
or_down none t = t
or_down (some new) t = new

unfoldable mutual
  pub replace_all : List Rule → Term → Term
  replace_all pairs (add ts) = or_down (match_of pairs (add ts)) (add (replace_terms pairs ts))
  replace_all pairs (mul ts) = or_down (match_of pairs (mul ts)) (mul (replace_terms pairs ts))
  replace_all pairs (pow b e) =
      or_down (match_of pairs (pow b e)) (pow (replace_all pairs b) (replace_all pairs e))
  replace_all pairs (func s ts) =
      or_down (match_of pairs (func s ts)) (func s (replace_terms pairs ts))
  replace_all pairs (number k s) = or_down (match_of pairs (number k s)) (number k s)
  replace_all pairs (symbol s) = or_down (match_of pairs (symbol s)) (symbol s)
  replace_all pairs (constant s) = or_down (match_of pairs (constant s)) (constant s)

  pub replace_terms : List Rule → Terms → Terms
  replace_terms pairs nil = nil
  replace_terms pairs (cons t ts) = cons (replace_all pairs t) (replace_terms pairs ts)

-- One pair after the other.
unfoldable pub replace_each : List Rule → Term → Term
unfolding replace_all
replace_each [] t = t
replace_each (p ∷ pairs) t = replace_each pairs (replace_all (p ∷ []) t)
