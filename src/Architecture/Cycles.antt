-- ===== src/Architecture/Cycles.antt =====
-- `find_cycles` as a whole.
use fortsym.Base.{
  ℕ, ◌≤◌, ◌≡◌, ◌↔◌, refl, sym, ap, ◌∙◌, ◌⊎◌, inl, inr, true, false, List, [], ◌∷◌, All, length, Eq,
  ◌==◌, contains, beq_refl, Bool-cases, if◌then◌else◌, arith,
}
use fortsym.Base.Dict.{Dict, keys, lookup}
use fortsym.Base.Order.{Order, sorted, contains-sorted}
use fortsym.Architecture.Search.{
  Search, Outcome, done, ◌then◌, visit, visit_all, no_search, find_cycles,
}
use fortsym.Architecture.Paths.{IsCycle}
use fortsym.Architecture.States.{
  is_white, is_gray, is_black, whites, whites-le, IsReady, Ordered, Ran, Ran-refl, Ran-trans,
  Ran-IsReady, Ran-white,
}
use fortsym.Architecture.Visits.{is_name}
use fortsym.Architecture.Rounds.{visit-Visits}
use fortsym.Architecture.Ranks.{topological-IsCycle}

module _ {K : Type 0} ⦃e : Eq K⦄ where
  whites-length : (s : Search K) (l : List K) → whites s l ≤ length l
  whites-length s [] = omega arith
  whites-length s (k ∷ l) = ground (arith, whites-length s l)

module _ {K : Type 0} ⦃e : Eq K⦄ ⦃o : Order K⦄ (graph : Dict K (List K)) where
  -- The loop, and what is done behind it.
  AllDone : List K → Search K → Outcome (Search K) → Type 0
  AllDone names s r =
      (t : Search K) × (r ≡ done t)
      × Ran graph s t
      × ((b : K) → contains b names ≡ true → is_black t b ≡ true)

  visit_all-AllDone :
      (n : ℕ) (names : List K) (s : Search K)
      → s.stack ≡ []
      → IsReady s
      → ((b : K) → contains b names ≡ true → is_name graph b ≡ true)
      → whites s (keys graph) ≤ n
      → AllDone names s (visit_all graph n names s)
  unfolding visit_all AllDone
  visit_all-AllDone n [] s st ready names_in few = (s, refl, Ran-refl graph s, λ b m. absurd (cc))
  visit_all-AllDone n (name ∷ names) s st ready names_in few =
      let (t, r, ran, black) = start (Bool-cases (is_white s name)) in
      let (u, q, more, rest) =
        visit_all-AllDone n names t (ran.stack ∙ st) (Ran-IsReady graph s t ran ready)
          (λ b m. names_in b (ground arith))
          (omega (arith, whites-le s t (keys graph) (Ran-white graph s t ran), few)) in
      (
        u,
        rw r q,
        Ran-trans graph s t u ran more,
        λ b m. elim (Bool-cases (b == name)) [
          | inl same ↦ rw ((e.beq_iff b name).0 same) (more.black name black)
          | inr other ↦ rest b (rw other at m)
        ],
      )
    where
      start :
          ((is_white s name ≡ true) ⊎ (is_white s name ≡ false))
          → (t : Search K) × ((if is_white s name then visit graph n name s else done s) ≡ done t)
            × Ran graph s t
            × (is_black t name ≡ true)
      start (inl white) =
          let (t, r, ran, black) =
            visit-Visits graph n name s ready (rw st tt) white
              (names_in name (ground (arith, beq_refl name))) few in
          (t, rw white r, ran, black)
      start (inr visited) =
          let gray : is_gray s name ≡ false = ready name ∙ ap (contains name) st in
          (s, rw visited refl, Ran-refl graph s, ground arith)

  abbrev start_state : Search K
  start_state = no_search

  none-IsReady : IsReady start_state
  unfolding lookup
  none-IsReady k = refl

  none-Ordered : Ordered graph start_state []
  unfolding lookup
  none-Ordered = record { members = λ k. refl; topological = tt }

  search :
      AllDone
        (sorted (keys graph))
        no_search
        (visit_all graph (length (keys graph)) (sorted (keys graph)) no_search)
  search =
      visit_all-AllDone (length (keys graph)) (sorted (keys graph)) no_search refl none-IsReady
        (λ b m. sym (contains-sorted b (keys graph)) ∙ m) (whites-length no_search (keys graph))

  -- On every graph the search ends within as many rounds as there are names and without an exception,
  -- and each list that it returns starts and ends with the same name, each name in it using the next.
  pub find_cycles-IsCycle :
      (cycles : List (List K)) × (find_cycles graph ≡ done cycles) × All (IsCycle graph) cycles
  unfolding find_cycles AllDone
  find_cycles-IsCycle =
      let (t, r, ran, black) = search in
      let (more, split, cycles) = ran.cycles in (t.cycles, rw r refl, rw split cycles)

  -- The search returns the empty list exactly when there is no cycle in the graph.
  pub find_cycles-empty : (find_cycles graph ≡ done []) ↔ ((c : List K) → ¬ IsCycle graph c)
  unfolding find_cycles AllDone
  find_cycles-empty =
      let (t, r, ran, black) = search in
      (
        λ h c cycle.
            let h' : done t.cycles ≡ done [] = rw r at h in
            let (m, order) = ran.order (cc) [] none-Ordered in
            topological-IsCycle graph m order.topological
              (λ k is_in. sym (order.members k) ∙ black k (contains-sorted k (keys graph) ∙ is_in))
              c cycle,
        λ acyclic.
            let (cycles, found, all) = find_cycles-IsCycle in
            found ∙ ap done (no_member cycles all acyclic),
      )
    where
      no_member :
          (cycles : List (List K))
          → All (IsCycle graph) cycles
          → ((c : List K) → ¬ IsCycle graph c)
          → cycles ≡ []
      no_member [] all acyclic = refl
      no_member (c ∷ cycles) all acyclic = absurd (acyclic c all.0)
