-- ===== src/Architecture/Ranks.antt =====
-- Ranks of names in a list where each name stands before what it uses.
use fortsym.Base.{
  ℕ, suc, ◌≤◌, ◌<◌, ◌≡◌, ap, ◌∙◌, inl, inr, true, List, [], ◌∷◌, ◌++◌, length, is_some, Eq, ◌==◌,
  contains, Bool-cases, if◌then◌else◌, arith,
}
use fortsym.Base.Dict.{Dict}
use fortsym.Architecture.Paths.{Edge, IsWalk, IsCycle}
use fortsym.Architecture.States.{contains-keys, IsTopological}
use fortsym.Architecture.Visits.{is_name}

module _ {K : Type 0} ⦃e : Eq K⦄ where
  -- How many elements stand at or behind the last place of a name.
  rank : K → List K → ℕ
  rank k [] = 0
  rank k (a ∷ l) =
      let rest = rank k l in if contains k l then rest else if k == a then suc (length l) else 0

  rank-le : (k : K) (l : List K) → rank k l ≤ length l
  unfolding rank
  rank-le k [] = omega arith
  rank-le k (a ∷ l) = ground (arith, rank-le k l)

module _ {K : Type 0} ⦃e : Eq K⦄ (graph : Dict K (List K)) where
  Edge-is_name : (a b : K) → Edge graph a b → is_name graph a ≡ true
  Edge-is_name a b (l, found, uses) = contains-keys a graph ∙ ap is_some found

  rank-lt :
      (a b : K) (l : List K)
      → IsTopological graph l
      → Edge graph a b
      → is_name graph b ≡ true
      → contains a l ≡ true
      → (contains b l ≡ true) × (rank b l < rank a l)
  unfolding rank
  rank-lt a b [] order edge is_in m = absurd (cc)
  rank-lt a b (k ∷ l) (head, order) edge is_in m = elim (Bool-cases (contains a l)) [
    | inl later ↦
        let (there, less) = rank-lt a b l order edge is_in later in
        (ground arith, rw (later, there) less)
    | inr last ↦
        let same : (a == k) ≡ true = ground arith in
        let there : contains b l ≡ true = head b (rw ((e.beq_iff a k).0 same) at edge) is_in in
        (ground arith, rw (last, same, there) (omega (arith, rank-le b l)))
  ]

  walk_start :
      (a z : K) (between : List K) → IsWalk graph (a ∷ (between ++ z ∷ [])) → is_name graph a ≡ true
  walk_start a z [] w = Edge-is_name a z w.0
  walk_start a z (b ∷ between) w = Edge-is_name a b w.0

  walk_rank :
      (l : List K) (a z : K) (between : List K)
      → IsTopological graph l
      → IsWalk graph (a ∷ (between ++ z ∷ []))
      → is_name graph z ≡ true
      → contains a l ≡ true
      → rank z l < rank a l
  walk_rank l a z [] order w is_in m = (rank-lt a z l order w.0 is_in m).1
  walk_rank l a z (b ∷ between) order w is_in m =
      let (there, less) = rank-lt a b l order w.0 (walk_start b z between w.1) m in
      omega (arith, less, walk_rank l b z between order w.1 is_in there)

  pub topological-IsCycle :
      (l : List K)
      → IsTopological graph l
      → ((k : K) → is_name graph k ≡ true → contains k l ≡ true)
      → (c : List K) → IsCycle graph c
      → ⊥
  topological-IsCycle l order all c (name, between, shape, walk) =
      let w : IsWalk graph (name ∷ (between ++ name ∷ [])) = rw shape at walk in
      let is_in = walk_start name name between w in
      absurd (omega (arith, walk_rank l name name between order w is_in (all name is_in)))
