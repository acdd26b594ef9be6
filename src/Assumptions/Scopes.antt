-- ===== src/Assumptions/Scopes.antt =====
-- A scope leaves the assumptions as it found them; a refused recording leaves stale answers.
use fortsym.Base.{
  ℕ, ◌≡◌, refl, ◌∙◌, Bool, true, false, [], ◌∷◌, List, inl, inr, Option, none, some, Error, Result,
  ok, err, nat_eq, pair_eq, Result-cases,
}
use fortsym.Base.Dict.{lookup}
use fortsym.Handles.{Native, Term, Store, Expr}
use fortsym.Assumptions.Changes.{
  Query, Kernel, Recorder, Session, Fact, assumption, relation, other, Scope, check,
  record_assumption, refuse_recorded, changed, settle, advance, after, assume, assume_relation,
  push, pop, check_facts, assume_facts, undo, enter_pushed, enter_checked, enter, leave,
}
use fortsym.Assumptions.Answers.{Objects, slot, option, hit, predicate}

module _ {A : Type 0} (kernel : Kernel A) where
  -- The assumptions `b` are those of `a`, behind a push and further assumptions.
  pub data Within (a : A) : A → Type 0 where
    pushed : {b : A} → kernel.push a ≡ ok b → Within a b
    assumed :
        {b c : A} (t : Term) (fact : ℕ) → Within a b → kernel.assume b t fact ≡ ok c → Within a c
    related : {b c : A} (t : Term) → Within a b → kernel.assume_relation b t ≡ ok c → Within a c

  settle-Within :
      (a : A) (s : Session A) (r : Option Recorder) (e : Expr) (fact : ℕ) (q : Result A)
      → r ≡ none
      → kernel.assume s.context e.term fact ≡ q
      → Within a s.context
      → Within a (settle s r e fact q).1.context
  unfolding record_assumption changed
  settle-Within a s none e fact (ok c) n p w = assumed e.term fact w p
  settle-Within a s (some r) e fact (ok c) n p w = absurd (cc)
  settle-Within a s r e fact (err x) n p w = w

  advance-Within :
      (a : A) (s : Session A) (t : Term) (q : Result A)
      → kernel.assume_relation s.context t ≡ q
      → Within a s.context
      → Within a (advance s q).1.context
  unfolding changed
  advance-Within a s t (ok c) p w = related t w p
  advance-Within a s t (err x) p w = w

  -- Inside the scope of `a`, with no derivation.
  abbrev IsInside : A → Session A → Type 0
  IsInside a s = Within a s.context × (s.recorder ≡ none)

  settle-recorder :
      (s : Session A) (r : Option Recorder) (e : Expr) (fact : ℕ) (q : Result A)
      → (settle s r e fact q).1.recorder ≡ s.recorder
  unfolding changed
  settle-recorder s r e fact (err x) = refl
  settle-recorder s r e fact (ok c) = elim (Result-cases (record_assumption r e fact)) [
    | inl (u, p) ↦ rw p refl
    | inr (x, p) ↦ rw p refl
  ]

  advance-recorder : (s : Session A) (q : Result A) → (advance s q).1.recorder ≡ s.recorder
  unfolding changed
  advance-recorder s (ok c) = refl
  advance-recorder s (err x) = refl

  after-Inside :
      (a : A) (s : Session A) (r : Result (Unit {0}))
      (f : Session A → Result (Unit {0}) × Session A)
      → IsInside a s
      → ((t : Session A) → IsInside a t → IsInside a (f t).1)
      → IsInside a (after s r f).1
  after-Inside a s (ok u) f h k = k s h
  after-Inside a s (err x) f h k = h

  assume-Inside :
      (a : A) (store : Store) (e : Expr) (fact : ℕ) (s : Session A)
      → IsInside a s
      → IsInside a (assume kernel store e fact s).1
  unfolding assume
  assume-Inside a store e fact s h =
      after-Inside a s (check store e)
        (λ t. settle t t.recorder e fact (kernel.assume t.context e.term fact)) h
        (λ t k. (
          settle-Within a t t.recorder e fact (kernel.assume t.context e.term fact) k.1 refl k.0,
          settle-recorder t t.recorder e fact (kernel.assume t.context e.term fact) ∙ k.1,
        ))

  assume_relation-Inside :
      (a : A) (store : Store) (e : Expr) (s : Session A)
      → IsInside a s
      → IsInside a (assume_relation kernel store e s).1
  unfolding assume_relation
  assume_relation-Inside a store e s h =
      after-Inside a s (refuse_recorded s.recorder)
        (λ t. after t (check store e) (λ u. advance u (kernel.assume_relation u.context e.term))) h
        (λ t k.
          after-Inside a t (check store e)
            (λ u. advance u (kernel.assume_relation u.context e.term)) k
            (λ u j. (
              advance-Within a u e.term (kernel.assume_relation u.context e.term) refl j.0,
              advance-recorder u (kernel.assume_relation u.context e.term) ∙ j.1,
            )))

  assume_facts-Inside :
      (a : A) (store : Store) (facts : List Fact) (s : Session A)
      → IsInside a s
      → IsInside a (assume_facts kernel store facts s).1
  unfolding assume_facts
  assume_facts-Inside a store [] s h = h
  assume_facts-Inside a store (assumption e fact ∷ facts) s h =
      let q = assume kernel store e fact s in
      after-Inside a q.1 q.0 (assume_facts kernel store facts) (assume-Inside a store e fact s h)
        (assume_facts-Inside a store facts)
  assume_facts-Inside a store (relation e ∷ facts) s h =
      let q = assume_relation kernel store e s in
      after-Inside a q.1 q.0 (assume_facts kernel store facts)
        (assume_relation-Inside a store e s h) (assume_facts-Inside a store facts)
  assume_facts-Inside a store (other ∷ facts) s h = h

  -- How `with assuming(...)` begins: with the scope entered, or with the assumptions `a` again.
  pub data Begins (a : A) : Result Scope × Session A → Type 0 where
    began :
        {scope : Scope} {s : Session A}
        → scope.entered ≡ true
        → Within a s.context
        → Begins a (ok scope, s)
    refused : {x : Error} {s : Session A} → s.context ≡ a → Begins a (err x, s)

  -- A pop behind a push, with assumptions made between them, gives the assumptions before the push.
  abbrev pub Restores : Type 0
  Restores = (a b : A) → Within a b → kernel.pop b ≡ ok a

  after-unrecorded :
      (s : Session A) (r : Option Recorder) (f : Session A → Result (Unit {0}) × Session A)
      → r ≡ none
      → after s (refuse_recorded r) f ≡ f s
  unfolding refuse_recorded
  after-unrecorded s none f n = refl
  after-unrecorded s (some r) f n = absurd (cc)

  push_advance :
      (s : Session A) → s.recorder ≡ none → push kernel s ≡ advance s (kernel.push s.context)
  unfolding push
  push_advance s n = after-unrecorded s s.recorder (λ t. advance t (kernel.push t.context)) n

  changed-context : (a : A) (s : Session A) → (changed a s).context ≡ a
  unfolding changed
  changed-context a s = refl

  module _ (restores : Restores) where
    pop-Within :
        (a : A) (s : Session A) → Within a s.context → (pop kernel s ≡ (ok tt, changed a s))
    unfolding pop
    pop-Within a s w = rw (restores a s.context w) refl

    undo-Begins :
        (a : A) (store : Store) (scope : Scope) (q : Result (Unit {0}) × Session A)
        → Within a q.1.context
        → Begins a (undo kernel store scope q)
    undo-Begins a store scope (ok u, s) w = began refl w
    undo-Begins a store scope (err x, s) w = rw (pop-Within a s w) (refused (changed-context a s))

    -- `push`, as far as a scope needs it.
    push-Begins :
        (store : Store) (scope : Scope) (s : Session A) (q : Result A)
        → kernel.push s.context ≡ q
        → s.recorder ≡ none
        → Begins s.context (enter_pushed kernel store scope (advance s q))
    unfolding changed
    push-Begins store scope s (err x) p n = refused refl
    push-Begins store scope s (ok c) p n =
        let inside = assume_facts-Inside s.context store scope.facts (changed c s) (pushed p, n) in
        undo-Begins s.context store scope (assume_facts kernel store scope.facts (changed c s))
          inside.0

    checked-Begins :
        (store : Store) (scope : Scope) (s : Session A) (r : Result (Unit {0}))
        → s.recorder ≡ none
        → Begins s.context (enter_checked kernel store scope s r)
    checked-Begins store scope s (err x) n = refused refl
    checked-Begins store scope s (ok u) n =
        rw (push_advance s n) (push-Begins store scope s (kernel.push s.context) refl n)

    -- Where a pop gives the assumptions from before the push, entering a scope with no derivation
    -- either raises and leaves the assumptions as they were, or it enters the scope; and leaving an
    -- entered scope, with any assumptions made in it, leaves those from before it was entered.
    pub scope_restores :
        (store : Store) (scope : Scope) (s : Session A)
        → s.recorder ≡ none
        → Begins s.context (enter kernel store scope s)
          × ((inner : Scope) (u : Session A)
              → inner.entered ≡ true
              → Within s.context u.context
              → leave kernel inner u ≡ (ok (record inner { entered = false }), changed s.context u))
    unfolding enter leave
    scope_restores store scope s n = (
      checked-Begins store scope s (check_facts store scope.facts) n,
      λ inner u is_in w. rw (is_in, pop-Within s.context u w) refl,
    )

-- Where a derivation refuses to record an assumption that the native library has accepted, `assume`
-- raises with the assumption made and the epoch unchanged: an answer of a matrix's predicate that is
-- kept from before is still returned after it, whatever the new assumptions say.
pub assume_leaves_stale :
    {A : Type 0} (native : Native) (kernel : Kernel A) (objects : Objects) (store : Store)
    (s : Session A) (r : Recorder) (e : Expr) (fact : ℕ) (c : A) (x : Error) (i : ℕ) (q : Query)
    (b : Option Bool)
    → s.recorder ≡ some r
    → store.live e.id ≡ true
    → kernel.assume s.context e.term fact ≡ ok c
    → record_assumption (some r) e fact ≡ err x
    → hit native kernel objects (lookup (i, slot q) s.caches) s.epoch (option q) ≡ some b
    → let after_raise = assume kernel store e fact s in
      (after_raise.0 ≡ err x)
      × (after_raise.1.context ≡ c)
      × (predicate native kernel objects i q after_raise.1 store ≡ (ok b, (after_raise.1, store)))
unfolding assume predicate
assume_leaves_stale native kernel objects store s r e fact c x i q b at_r is_open made refused_note
      kept =
    rw (is_open, made, at_r, refused_note) (refl, refl, rw kept refl)
