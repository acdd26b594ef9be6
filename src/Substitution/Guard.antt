-- ===== src/Substitution/Guard.antt =====
-- `_can_use_subs_many`, with the verdicts that an expression keeps.
use fortsym.Base.{
  ℕ, Bool, true, not, ◌&&◌, List, [], ◌∷◌, all, length, Option, none, some, Eq, ◌/=◌, nat_eq,
  pair_eq, list_eq, contains, leb, if◌then◌else◌,
}
use fortsym.Base.Dict.{Dict, keys, lookup, insert}
use fortsym.Handles.{Term, kind_of}
use fortsym.Substitution.Replace.{Rule, term_eq}

abbrev pub atomic_kinds : List ℕ
atomic_kinds = 1 ∷ 2 ∷ 3 ∷ 4 ∷ 5 ∷ 10 ∷ 11 ∷ 12 ∷ 13 ∷ []

abbrev pub is_atomic : Term → Bool
is_atomic t = contains (kind_of t) atomic_kinds

-- The new value is no key.
abbrev pub is_apart : List Rule → Term → Bool
is_apart [] new = true
is_apart ((old, other) ∷ pairs) new = (new /= old) && is_apart pairs new

abbrev pub new_values : List Rule → List Term
new_values [] = []
new_values ((old, new) ∷ pairs) = new ∷ new_values pairs

abbrev pub old_values : List Rule → List Term
old_values [] = []
old_values ((old, new) ∷ pairs) = old ∷ old_values pairs

-- The verdict without what is kept.
unfoldable pub is_safe : List Rule → Bool
is_safe pairs = all is_atomic (new_values pairs) && all (is_apart pairs) (new_values pairs)

-- `tuple((id(old), id(new)) for ...)`
abbrev pub Signature : Type 0
Signature = List (ℕ × ℕ)

module _ {K V : Type 0} ⦃e : Eq K⦄ where
  -- `cache.pop(next(iter(cache)))`
  abbrev pub without_first : Dict K V → Dict K V
  without_first [] = []
  without_first (entry ∷ d) = d

  -- The write that leaves at most eight entries.
  abbrev pub keep_recent : K → V → Dict K V → Dict K V
  keep_recent k v d =
      insert k v (if not (contains k (keys d)) && leb 8 (length d) then without_first d else d)

abbrev pub Verdicts : Type 0
Verdicts = Dict Signature Bool

abbrev pub kept_verdict : Option Bool → Verdicts → List Rule → Signature → Bool × Verdicts
kept_verdict (some safe) cache pairs signature = (safe, cache)
kept_verdict none cache pairs signature =
    (is_safe pairs, keep_recent signature (is_safe pairs) cache)

-- `_can_use_subs_many`, with the cache behind it.
unfoldable pub can_use_subs_many : Verdicts → List Rule → Signature → Bool × Verdicts
unfolding is_safe lookup insert
can_use_subs_many cache pairs signature =
    kept_verdict (lookup signature cache) cache pairs signature
