-- ===== src/Architecture/Rounds.antt =====
-- `visit`, by the rounds that it is given.
use fortsym.Base.{
  ℕ, zero, suc, ◌≡◌, refl, sym, ap, ◌∙◌, inl, inr, true, false, ◌||◌, List, [], ◌∷◌, some, Eq, ◌==◌,
  contains, beq_refl, contains-append, Bool-cases, Option-cases, arith,
}
use fortsym.Base.Dict.{Dict, keys, lookup}
use fortsym.Base.Order.{Order, sorted, contains-sorted}
use fortsym.Architecture.Search.{Search, pop, begin, finish, visit}
use fortsym.Architecture.States.{
  is_white, is_gray, is_black, colour-paint, whites-lt, IsReady, pop_append, contains-keys, Ordered,
  Ran,
}
use fortsym.Architecture.Visits.{is_name, Visits, visit_each-AllMet}

module _ {K : Type 0} ⦃e : Eq K⦄ where
  begin-white : (name k : K) (s : Search K) → is_white (begin name s) k ≡ true → is_white s k ≡ true
  begin-white name k s = ground (arith, colour-paint name k 1 s)

  begin-white_name : (name : K) (s : Search K) → is_white (begin name s) name ≡ false
  begin-white_name name s = ground (arith, colour-paint name name 1 s, beq_refl name)

  begin-IsReady : (name : K) (s : Search K) → IsReady s → IsReady (begin name s)
  begin-IsReady name s ready k = ground (
    arith,
    colour-paint name k 1 s,
    ready k,
    contains-append k s.stack (name ∷ []),
    e.beq_iff name k,
    e.beq_iff k name,
  )

  begin-black :
      (name k : K) (s : Search K)
      → is_white s name ≡ true
      → is_black (begin name s) k ≡ is_black s k
  begin-black name k s white = elim (Bool-cases (name == k)) [
    | inl same ↦
        let p : is_white s k ≡ true = ap (is_white s) (sym ((e.beq_iff name k).0 same)) ∙ white in
        rw (colour-paint name k 1 s, same) (ground arith)
    | inr other ↦ rw (colour-paint name k 1 s, other) refl
  ]

  finish-gray :
      (name k : K) (s t : Search K)
      → is_white s name ≡ true
      → is_gray t k ≡ is_gray (begin name s) k
      → is_gray (finish name t) k ≡ is_gray s k
  finish-gray name k s t white h = elim (Bool-cases (name == k)) [
    | inl same ↦
        let p : is_white s k ≡ true = ap (is_white s) (sym ((e.beq_iff name k).0 same)) ∙ white in
        rw (colour-paint name k 2 (record t { stack = pop t.stack }), same) (ground arith)
    | inr other ↦
        rw (colour-paint name k 2 (record t { stack = pop t.stack }), other)
          (rw (colour-paint name k 1 s, other) at h)
  ]

  finish-black :
      (name k : K) (t : Search K) → is_black (finish name t) k ≡ (name == k || is_black t k)
  finish-black name k t = ground (arith, colour-paint name k 2 (record t { stack = pop t.stack }))

module _ {K : Type 0} ⦃e : Eq K⦄ (graph : Dict K (List K)) where
  begin-Ordered :
      (name : K) (s : Search K) (l : List K)
      → is_white s name ≡ true
      → Ordered graph s l
      → Ordered graph (begin name s) l
  begin-Ordered name s l white o = record {
    members = λ k. begin-black name k s white ∙ o.members k;
    topological = o.topological;
  }

  -- What a visit has done once its dependencies are met.
  finish-Ran :
      (name : K) (s t : Search K) (l : List K)
      → is_white s name ≡ true
      → lookup name graph ≡ some l
      → Ran graph (begin name s) t
      → (t.cycles ≡ []
          → (b : K) → contains b l ≡ true
          → is_name graph b ≡ true
          → is_black t b ≡ true)
      → Ran graph s (finish name t)
  finish-Ran name s t l white found r met = record {
    stack = ap pop r.stack ∙ pop_append s.stack name;
    gray = λ k. finish-gray name k s t white (r.gray k);
    black = λ k h. finish-black name k t ∙ ground (arith, r.black k, begin-black name k s white);
    cycles = r.cycles;
    order = λ h m o.
        let (n, ordered) = r.order h m (begin-Ordered name s m white o) in
        (
          name ∷ n,
          record {
            members = λ k.
                finish-black name k t
                ∙ ground (arith, ordered.members k, e.beq_iff name k, e.beq_iff k name);
            topological = (
              λ b (d, at_name, uses) is_in. sym (ordered.members b) ∙ met h b (cc) is_in,
              ordered.topological,
            );
          },
        );
  }

module _ {K : Type 0} ⦃e : Eq K⦄ ⦃o : Order K⦄ (graph : Dict K (List K)) where
  -- As many rounds as there are names not yet visited are enough for a visit.
  pub visit-Visits : (n : ℕ) → Visits graph n (visit graph n)
  unfolding visit
  visit-Visits zero name s ready w white is_in few = absurd (
      omega (
        arith,
        few,
        whites-lt s (begin name s) name (keys graph) (λ k. begin-white name k s) white
            (begin-white_name name s) is_in,
      ))
  visit-Visits (suc n) name s ready w white is_in few = elim (Option-cases (lookup name graph)) [
    | inl missing ↦ absurd (ground (arith, contains-keys name graph))
    | inr (l, found) ↦
        let (t, r, ran, met) =
          visit_each-AllMet graph (visit graph n) n s.stack name (sorted l) (begin name s)
            (visit-Visits n) refl (begin-IsReady name s ready) w
            (λ b m. (l, found, sym (contains-sorted b l) ∙ m))
            (omega (
              arith,
              few,
              whites-lt s (begin name s) name (keys graph) (λ k. begin-white name k s) white
                  (begin-white_name name s) is_in,
            )) in
        (
          finish name t,
          rw (found, r) refl,
          finish-Ran graph name s t l white found ran (λ h b m. met h b (contains-sorted b l ∙ m)),
          finish-black name name t ∙ ground (arith, beq_refl name),
        )
  ]
