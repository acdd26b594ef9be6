-- ===== src/Architecture/States.antt =====
-- Colours of a search, what a run of it keeps, and the order in which names are done.
use fortsym.Base.{
  ℕ, ◌+◌, ◌≤◌, ◌<◌, ◌≡◌, refl, sym, ap, ◌∙◌, inl, inr, Bool, true, false, List, [], ◌∷◌, ◌++◌, All,
  is_some, Eq, ◌==◌, contains, nat_beq, leb, Bool-cases, if◌then◌else◌, arith,
}
use fortsym.Base.Dict.{Dict, keys, lookup, lookup-insert}
use fortsym.Architecture.Search.{Search, colour, paint, pop}
use fortsym.Architecture.Paths.{Edge, IsCycle}
use mathlib.Core.List.{append_assoc, append-nil}

module _ {K : Type 0} ⦃e : Eq K⦄ where
  abbrev pub is_white : Search K → K → Bool
  is_white s k = nat_beq (colour s k) 0

  abbrev pub is_gray : Search K → K → Bool
  is_gray s k = nat_beq (colour s k) 1

  abbrev pub is_black : Search K → K → Bool
  is_black s k = leb 2 (colour s k)

  pub colour-paint :
      (name k : K) (n : ℕ) (s : Search K)
      → colour (paint name n s) k ≡ (if name == k then n else colour s k)
  colour-paint name k n s = elim (Bool-cases (name == k)) [
    | inl same ↦ rw (lookup-insert name k n s.state, same) refl
    | inr other ↦ rw (lookup-insert name k n s.state, other) refl
  ]

  -- How many of the names have not been visited.
  abbrev pub whites : Search K → List K → ℕ
  whites s [] = 0
  whites s (k ∷ l) = (if is_white s k then 1 else 0) + whites s l

  pub whites-le :
      (s t : Search K) (l : List K)
      → ((k : K) → is_white t k ≡ true → is_white s k ≡ true)
      → whites t l ≤ whites s l
  whites-le s t [] h = omega arith
  whites-le s t (k ∷ l) h = ground (arith, h k, whites-le s t l h)

  pub whites-lt :
      (s t : Search K) (name : K) (l : List K)
      → ((k : K) → is_white t k ≡ true → is_white s k ≡ true)
      → is_white s name ≡ true
      → is_white t name ≡ false
      → contains name l ≡ true
      → whites t l < whites s l
  whites-lt s t name [] h p q m = absurd (cc)
  whites-lt s t name (k ∷ l) h p q m = elim (Bool-cases (name == k)) [
    | inl same ↦
        let p' : is_white s k ≡ true = ap (is_white s) (sym ((e.beq_iff name k).0 same)) ∙ p in
        let q' : is_white t k ≡ false = ap (is_white t) (sym ((e.beq_iff name k).0 same)) ∙ q in
        rw (p', q') (omega (arith, whites-le s t l h))
    | inr other ↦ ground (arith, h k, whites-lt s t name l h p q)
  ]

  -- The names that are being visited are those of the stack.
  abbrev pub IsReady : Search K → Type 0
  IsReady s = (k : K) → is_gray s k ≡ contains k s.stack

  pub pop_append : (l : List K) (k : K) → pop (l ++ k ∷ []) ≡ l
  pop_append [] k = refl
  pop_append (a ∷ []) k = refl
  pop_append (a ∷ b ∷ l) k = ap (λ m. a ∷ m) (pop_append (b ∷ l) k)

  pub contains-keys : (k : K) (d : Dict K (List K)) → contains k (keys d) ≡ is_some (lookup k d)
  unfolding lookup
  contains-keys k [] = refl
  contains-keys k ((j, v) ∷ d) = ground (arith, e.beq_iff k j, e.beq_iff j k, contains-keys k d)

module _ {K : Type 0} ⦃e : Eq K⦄ (graph : Dict K (List K)) where
  -- Every name uses only names behind it, as far as they are in the graph.
  abbrev pub IsTopological : List K → Type 0
  IsTopological [] = Unit
  IsTopological (a ∷ l) =
      ((b : K) → Edge graph a b → contains b (keys graph) ≡ true → contains b l ≡ true)
      × IsTopological l

  -- The names that are done, the latest first.
  pub record Ordered (s : Search K) (l : List K) : Type 0 where
    pub members : (k : K) → is_black s k ≡ contains k l
    pub topological : IsTopological l

  -- What a part of the search has done.
  pub record Ran (s t : Search K) : Type 0 where
    pub stack : t.stack ≡ s.stack
    pub gray : (k : K) → is_gray t k ≡ is_gray s k
    pub black : (k : K) → is_black s k ≡ true → is_black t k ≡ true
    pub cycles : (more : List (List K)) × (t.cycles ≡ s.cycles ++ more) × All (IsCycle graph) more
    pub order : t.cycles ≡ [] → (l : List K) → Ordered s l → (m : List K) × Ordered t m

  pub Ran-refl : (s : Search K) → Ran s s
  Ran-refl s = record {
    stack = refl;
    gray = λ k. refl;
    black = λ k h. h;
    cycles = ([], sym (append-nil s.cycles), tt);
    order = λ h l o. (l, o);
  }

  append_nil_left : {A : Type 0} (l m : List A) → l ++ m ≡ [] → l ≡ []
  append_nil_left [] m h = refl
  append_nil_left (x ∷ l) m h = absurd (cc)

  All-append : {A : Type 0} (P : A → Type 0) (l m : List A) → All P l → All P m → All P (l ++ m)
  All-append P [] m h g = g
  All-append P (x ∷ l) m h g = (h.0, All-append P l m h.1 g)

  pub Ran-no_cycles : (s t : Search K) → Ran s t → t.cycles ≡ [] → s.cycles ≡ []
  Ran-no_cycles s t r h = let c = r.cycles in append_nil_left s.cycles c.0 (sym c.1 ∙ h)

  pub Ran-trans : (s t u : Search K) → Ran s t → Ran t u → Ran s u
  Ran-trans s t u r q =
      let c = r.cycles in
      let d = q.cycles in
      record {
        stack = q.stack ∙ r.stack;
        gray = λ k. q.gray k ∙ r.gray k;
        black = λ k h. q.black k (r.black k h);
        cycles = (
          c.0 ++ d.0,
          d.1 ∙ ap (λ x. x ++ d.0) c.1 ∙ append_assoc s.cycles c.0 d.0,
          All-append (IsCycle graph) c.0 d.0 c.2 d.2,
        );
        order = λ h l o. let m = r.order (Ran-no_cycles t u q h) l o in q.order h m.0 m.1;
      }

  pub Ran-IsReady : (s t : Search K) → Ran s t → IsReady s → IsReady t
  Ran-IsReady s t r h k = r.gray k ∙ h k ∙ ap (contains k) (sym r.stack)

  pub Ran-white : (s t : Search K) → Ran s t → (k : K) → is_white t k ≡ true → is_white s k ≡ true
  Ran-white s t r k h = ground (arith, r.gray k, r.black k)
