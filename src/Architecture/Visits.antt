-- ===== src/Architecture/Visits.antt =====
-- Visits that return, and the loop over what a name uses.
use fortsym.Base.{
  ℕ, zero, suc, ◌≤◌, ◌≡◌, refl, ap, ◌∙◌, ◌⊎◌, inl, inr, Bool, true, false, List, [], ◌∷◌, ◌++◌, Eq,
  ◌==◌, contains, beq_refl, Bool-cases, if◌then◌else◌, arith,
}
use fortsym.Base.Dict.{Dict, keys}
use fortsym.Architecture.Search.{
  Search, Outcome, done, ◌then◌, colour, record_cycle, meet, visit_each,
}
use fortsym.Architecture.Paths.{Edge, IsWalk, IsWalk-append, stack_from-IsWalk}
use fortsym.Architecture.States.{
  is_white, is_gray, is_black, whites, whites-le, IsReady, Ran, Ran-refl, Ran-trans, Ran-no_cycles,
  Ran-IsReady, Ran-white,
}

module _ {K : Type 0} ⦃e : Eq K⦄ (graph : Dict K (List K)) where
  abbrev pub is_name : K → Bool
  is_name k = contains k (keys graph)

  -- A visit of `name` from `s` that returns.
  abbrev pub Visited : K → Search K → Outcome (Search K) → Type 0
  Visited name s r = (t : Search K) × (r ≡ done t) × Ran graph s t × (is_black t name ≡ true)

  -- What is known of the visits that the loop makes.
  abbrev pub Visits : ℕ → (K → Search K → Outcome (Search K)) → Type 0
  Visits n visit_one =
      (name : K) (s : Search K)
      → IsReady s
      → IsWalk graph (s.stack ++ name ∷ [])
      → is_white s name ≡ true
      → is_name name ≡ true
      → whites s (keys graph) ≤ n
      → Visited name s (visit_one name s)

  -- A dependency that is met: in a search without cycles it is done.
  abbrev pub Met : K → Search K → Outcome (Search K) → Type 0
  Met name s r =
      (t : Search K) × (r ≡ done t) × Ran graph s t × (t.cycles ≡ [] → is_black t name ≡ true)

  append_one : {A : Type 0} (l : List A) (x : A) → l ++ x ∷ [] ≡ [] → ⊥
  append_one [] x h = cc
  append_one (y ∷ l) x h = cc

  record_cycle-Met :
      (before : List K) (top name : K) (s : Search K)
      → s.stack ≡ before ++ top ∷ []
      → IsReady s
      → IsWalk graph s.stack
      → Edge graph top name
      → is_gray s name ≡ true
      → Met name s (record_cycle name s)
  record_cycle-Met before top name s st ready w edge gray =
      let (between, found, walk, (rest, starts)) =
        stack_from-IsWalk graph name before top (rw (ready name, st) at gray) (rw st at w) in
      let c = (between ++ top ∷ []) ++ name ∷ [] in
      (
        record s { cycles = s.cycles ++ (c ∷ []) },
        rw (st, found) refl,
        record {
          stack = refl;
          gray = λ k. refl;
          black = λ k h. h;
          cycles = (
            c ∷ [],
            refl,
            (
              (
                name,
                rest,
                ap (λ l. l ++ name ∷ []) starts,
                IsWalk-append graph between top name walk edge,
              ),
              tt,
            ),
          );
          order = λ h. absurd (append_one s.cycles c h);
        },
        λ h. absurd (append_one s.cycles c h),
      )

  meet-Met :
      (visit_one : K → Search K → Outcome (Search K)) (n : ℕ) (before : List K) (top name : K)
      (s : Search K) (c : ℕ)
      → colour s name ≡ c
      → Visits n visit_one
      → s.stack ≡ before ++ top ∷ []
      → IsReady s
      → IsWalk graph s.stack
      → Edge graph top name
      → is_name name ≡ true
      → whites s (keys graph) ≤ n
      → Met name s (meet visit_one name c s)
  meet-Met visit_one n before top name s zero p v st ready w edge is_in few =
      let walk = IsWalk-append graph before top name (rw st at w) edge in
      let (t, r, ran, black) = v name s ready (rw (← st) at walk) (rw p refl) is_in few in
      (t, r, ran, λ h. black)
  meet-Met visit_one n before top name s (suc zero) p v st ready w edge is_in few =
      record_cycle-Met before top name s st ready w edge (rw p refl)
  meet-Met visit_one n before top name s (suc (suc m)) p v st ready w edge is_in few =
      (s, refl, Ran-refl graph s, λ h. rw p (ground arith))

  -- The loop over the dependencies.
  abbrev pub AllMet : List K → Search K → Outcome (Search K) → Type 0
  AllMet names s r =
      (t : Search K) × (r ≡ done t)
      × Ran graph s t
      × (t.cycles ≡ [] → (b : K) → contains b names ≡ true → is_name b ≡ true → is_black t b ≡ true)

  pub visit_each-AllMet :
      (visit_one : K → Search K → Outcome (Search K)) (n : ℕ) (before : List K) (top : K)
      (names : List K) (s : Search K)
      → Visits n visit_one
      → s.stack ≡ before ++ top ∷ []
      → IsReady s
      → IsWalk graph s.stack
      → ((b : K) → contains b names ≡ true → Edge graph top b)
      → whites s (keys graph) ≤ n
      → AllMet names s (visit_each graph visit_one names s)
  unfolding visit_each
  visit_each-AllMet visit_one n before top [] s v st ready w edges few =
      (s, refl, Ran-refl graph s, λ h b m. absurd (cc))
  visit_each-AllMet visit_one n before top (name ∷ names) s v st ready w edges few =
      let (t, r, ran, black) = first (Bool-cases (is_name name)) in
      let (u, q, more, rest) =
        visit_each-AllMet visit_one n before top names t v (ran.stack ∙ st)
          (Ran-IsReady graph s t ran ready) (rw (← ran.stack) at w) (λ b m. edges b (ground arith))
          (omega (arith, whites-le s t (keys graph) (Ran-white graph s t ran), few)) in
      (
        u,
        rw r q,
        Ran-trans graph s t u ran more,
        λ h b m i. elim (Bool-cases (b == name)) [
          | inl same ↦
              let eq : b ≡ name = (e.beq_iff b name).0 same in
              rw eq (more.black name (black (Ran-no_cycles graph t u more h) (rw eq at i)))
          | inr other ↦ rest h b (rw other at m) i
        ],
      )
    where
      first :
          ((is_name name ≡ true) ⊎ (is_name name ≡ false))
          → (t : Search K) × ((if is_name name
                then meet visit_one name (colour s name) s
                else done s)
              ≡ done t)
            × Ran graph s t
            × (t.cycles ≡ [] → is_name name ≡ true → is_black t name ≡ true)
      first (inl is_in) =
          let (t, r, ran, black) =
            meet-Met visit_one n before top name s (colour s name) refl v st ready w
              (edges name (ground (arith, beq_refl name))) is_in few in
          (t, rw is_in r, ran, λ h i. black h)
      first (inr out) = (s, rw out refl, Ran-refl graph s, λ h i. absurd (cc (rw out at i)))
