-- ===== src/Architecture/Paths.antt =====
-- Walks in a graph, as lists of names.
use fortsym.Base.{
  ◌≡◌, refl, ap, inl, inr, true, List, [], ◌∷◌, ◌++◌, some, Eq, ◌==◌, contains, Bool-cases, arith,
}
use fortsym.Base.Dict.{Dict, lookup}
use fortsym.Architecture.Search.{stack_from, done}

module _ {K : Type 0} ⦃e : Eq K⦄ (graph : Dict K (List K)) where
  -- `a` uses `b`.
  abbrev pub Edge : K → K → Type 0
  Edge a b = (l : List K) × (lookup a graph ≡ some l) × (contains b l ≡ true)

  -- Each name uses the next.
  abbrev pub IsWalk : List K → Type 0
  IsWalk [] = Unit
  IsWalk (a ∷ []) = Unit
  IsWalk (a ∷ b ∷ l) = Edge a b × IsWalk (b ∷ l)

  -- A walk from a name back to it.
  abbrev pub IsCycle : List K → Type 0
  IsCycle c = (name : K) × (between : List K) × (c ≡ name ∷ (between ++ name ∷ [])) × IsWalk c

  pub IsWalk-append :
      (l : List K) (a b : K) → IsWalk (l ++ a ∷ []) → Edge a b → IsWalk ((l ++ a ∷ []) ++ b ∷ [])
  IsWalk-append [] a b h x = (x, tt)
  IsWalk-append (c ∷ []) a b h x = (h.0, (x, tt))
  IsWalk-append (c ∷ d ∷ l) a b h x = (h.0, IsWalk-append (d ∷ l) a b h.1 x)

  IsWalk-tail : (k : K) (l : List K) → IsWalk (k ∷ l) → IsWalk l
  IsWalk-tail k [] h = tt
  IsWalk-tail k (a ∷ l) h = h.1

  -- From a name of the stack on, the stack is a walk that ends where the stack ends.
  pub stack_from-IsWalk :
      (name : K) (l : List K) (top : K)
      → contains name (l ++ top ∷ []) ≡ true
      → IsWalk (l ++ top ∷ [])
      → (between : List K) × (stack_from name (l ++ top ∷ []) ≡ done (between ++ top ∷ []))
        × IsWalk (between ++ top ∷ [])
        × ((rest : List K) × (between ++ top ∷ [] ≡ name ∷ rest))
  unfolding stack_from
  stack_from-IsWalk name [] top h w = elim (Bool-cases (top == name)) [
    | inl same ↦ ([], rw same refl, tt, ([], ap (λ k. k ∷ []) ((e.beq_iff top name).0 same)))
    | inr other ↦ absurd (ground (arith, e.beq_iff top name, e.beq_iff name top))
  ]
  stack_from-IsWalk name (k ∷ l) top h w = elim (Bool-cases (k == name)) [
    | inl same ↦ (
      k ∷ l,
      rw same refl,
      w,
      (l ++ top ∷ [], ap (λ j. j ∷ (l ++ top ∷ [])) ((e.beq_iff k name).0 same)),
    )
    | inr other ↦
        let below =
          stack_from-IsWalk name l top (ground (arith, e.beq_iff k name, e.beq_iff name k))
            (IsWalk-tail k (l ++ top ∷ []) w) in
        (below.0, rw other below.1, below.2, below.3)
  ]
