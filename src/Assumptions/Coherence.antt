-- ===== src/Assumptions/Coherence.antt =====
-- The answers that are kept are the answers under the present assumptions.
use fortsym.Base.{
  ℕ, zero, suc, ◌≤◌, ◌≡◌, refl, ap, ◌∙◌, inl, inr, Bool, Option, none, some, Result, ok, err,
  nat_eq, bool_eq, pair_eq, nat_beq_iff, bool_beq_iff, arith, Option-cases,
}
use fortsym.Base.Dict.{lookup, insert, insert-cases}
use fortsym.Handles.{Native, Store}
use fortsym.Assumptions.Changes.{
  Query, diagonal, zero_matrix, upper, lower, upper_hessenberg, lower_hessenberg, identity, echelon,
  hermitian, anti_symmetric, symmetric, Kernel, Entry, Session, changed,
}
use fortsym.Assumptions.Answers.{Objects, slot, option, uncached, hit, keep_answer, predicate}

-- The predicate of a cache, with an option.
abbrev query_at : ℕ → Bool → Query
query_at zero b = diagonal
query_at (suc zero) b = zero_matrix
query_at (suc (suc zero)) b = upper
query_at (suc (suc (suc zero))) b = lower
query_at (suc (suc (suc (suc zero)))) b = upper_hessenberg
query_at (suc (suc (suc (suc (suc zero))))) b = lower_hessenberg
query_at (suc (suc (suc (suc (suc (suc zero)))))) b = identity
query_at (suc (suc (suc (suc (suc (suc (suc zero))))))) b = echelon
query_at (suc (suc (suc (suc (suc (suc (suc (suc zero)))))))) b = hermitian
query_at (suc (suc (suc (suc (suc (suc (suc (suc (suc zero))))))))) b = anti_symmetric b
query_at (suc (suc (suc (suc (suc (suc (suc (suc (suc (suc n)))))))))) b = symmetric b

query_at-slot : (q : Query) → query_at (slot q) (option q) ≡ q
query_at-slot diagonal = refl
query_at-slot zero_matrix = refl
query_at-slot upper = refl
query_at-slot lower = refl
query_at-slot upper_hessenberg = refl
query_at-slot lower_hessenberg = refl
query_at-slot identity = refl
query_at-slot echelon = refl
query_at-slot hermitian = refl
query_at-slot (anti_symmetric b) = refl
query_at-slot (symmetric b) = refl

module _ {A : Type 0} (native : Native) (kernel : Kernel A) (objects : Objects) where
  -- The predicate without its cache gives this answer under the assumptions.
  abbrev pub IsAnswer : A → ℕ → Query → Option Bool → Type 0
  IsAnswer c i q b =
      (s : Store) × (t : Store) × (uncached native kernel objects c i q s ≡ (ok b, t))

  -- No kept answer is from a later epoch, and those of the present epoch are right.
  pub record Coherent (s : Session A) : Type 0 where
    pub past : (k : ℕ × ℕ) (x : Entry) → lookup k s.caches ≡ some x → x.epoch ≤ s.epoch
    pub right :
        (i n : ℕ) (x : Entry)
        → lookup (i, n) s.caches ≡ some x
        → x.epoch ≡ s.epoch
        → IsAnswer s.context i (query_at n x.simplify) x.answer

  pub changed-Coherent : (c : A) (s : Session A) → Coherent s → Coherent (changed c s)
  unfolding changed lookup
  changed-Coherent c s h = record {
    past = λ k x e. omega (arith, h.past k x e);
    right = λ i n x e q. absurd (omega (arith, h.past (i, n) x e, q));
  }

  insert-Coherent :
      (i : ℕ) (q : Query) (b : Option Bool) (s : Session A)
      → Coherent s
      → IsAnswer s.context i q b
      → Coherent (record s {
        caches =
            insert
              (i, slot q)
              (record { epoch = s.epoch; simplify = option q; answer = b })
              s.caches;
      })
  insert-Coherent i q b s h r = record {
    past = λ k x e.
        elim (insert-cases (i, slot q) k
          (record { epoch = s.epoch; simplify = option q; answer = b }) x s.caches e) [
            | inl u ↦ omega (arith, ap (λ (y : Entry). y.epoch) u.1)
            | inr u ↦ h.past k x u
          ];
    right = λ j n x e p.
        elim (insert-cases (i, slot q) (j, n)
          (record { epoch = s.epoch; simplify = option q; answer = b }) x s.caches e) [
            | inl u ↦
                rw
                  (
                    ← ap (λ (p : ℕ × ℕ). p.0) u.0,
                    ← ap (λ (p : ℕ × ℕ). p.1) u.0,
                    ← u.1,
                    query_at-slot q,
                  )
                  r
            | inr u ↦ h.right j n x u p
          ];
  }

  -- What a question may do: it answers rightly, and changes neither the assumptions nor the epoch.
  pub record Asked (s t : Session A) : Type 0 where
    pub coherent : Coherent t
    pub context : t.context ≡ s.context
    pub epoch : t.epoch ≡ s.epoch
    pub recorder : t.recorder ≡ s.recorder

  Asked-refl : (s : Session A) → Coherent s → Asked s s
  Asked-refl s h = record { coherent = h; context = refl; epoch = refl; recorder = refl }

  some_answer : (a b : Option Bool) → Path (Result (Option Bool)) (ok a) (ok b) → a ≡ b
  some_answer a b p = cc

  hit-epoch :
      (o : Option Entry) (n : ℕ) (b : Bool) (a : Option Bool)
      → hit native kernel objects o n b ≡ some a
      → (x : Entry) × (o ≡ some x) × (x.epoch ≡ n) × (x.simplify ≡ b) × (x.answer ≡ a)
  hit-epoch none n b a h = absurd (cc)
  hit-epoch (some x) n b a h = (
    x,
    refl,
    ground (arith, nat_beq_iff x.epoch n, bool_beq_iff x.simplify b),
    ground (arith, nat_beq_iff x.epoch n, bool_beq_iff x.simplify b),
    ground (arith, nat_beq_iff x.epoch n, bool_beq_iff x.simplify b),
  )

  keep_answer-Asked :
      (i : ℕ) (q : Query) (s : Session A) (store : Store) (r : Result (Option Bool) × Store)
      → Coherent s
      → uncached native kernel objects s.context i q store ≡ r
      → let k = keep_answer native kernel objects s i q r in
        Asked s k.1.0 × ((b : Option Bool) → k.0 ≡ ok b → IsAnswer s.context i q b)
  keep_answer-Asked i q s store (err x, t) h e = (Asked-refl s h, λ b p. absurd (cc))
  keep_answer-Asked i q s store (ok a, t) h e = (
    record {
      coherent = insert-Coherent i q a s h (store, t, e);
      context = refl;
      epoch = refl;
      recorder = refl;
    },
    λ b p. (store, t, e ∙ ap (λ r. (r, t)) p),
  )

  -- Asked of a coherent session, a predicate of a matrix answers what it would answer without its
  -- cache under the present assumptions, and leaves a coherent session with the same assumptions.
  pub predicate-IsAnswer :
      (i : ℕ) (q : Query) (s : Session A) (store : Store)
      → Coherent s
      → let r = predicate native kernel objects i q s store in
        Asked s r.1.0 × ((b : Option Bool) → r.0 ≡ ok b → IsAnswer s.context i q b)
  unfolding predicate
  predicate-IsAnswer i q s store h =
      elim (Option-cases
        (hit native kernel objects (lookup (i, slot q) s.caches) s.epoch (option q))) [
          | inl miss ↦ rw miss (
              keep_answer-Asked i q s store (uncached native kernel objects s.context i q store) h
                refl)
          | inr (a, found) ↦
              let (x, at_key, now, flag, same) =
                hit-epoch (lookup (i, slot q) s.caches) s.epoch (option q) a found in
              rw found (
                Asked-refl s h,
                λ b p.
                    let kept = h.right i (slot q) x at_key now in
                    rw (flag, query_at-slot q, same, some_answer a b p) at kept,
              )
        ]
