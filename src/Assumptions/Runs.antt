-- ===== src/Assumptions/Runs.antt =====
-- What a run of the operations keeps true of the answers.
use fortsym.Base.{
  ℕ, ◌≡◌, refl, ◌∙◌, inl, inr, Bool, [], ◌∷◌, List, Option, none, some, Result, ok, err, nat_eq,
  bool_eq, pair_eq, Bool-cases,
}
use fortsym.Base.Dict.{lookup}
use fortsym.Handles.{Native, Store, Expr}
use fortsym.Assumptions.Changes.{
  Query, Kernel, Recorder, Session, Fact, assumption, relation, other, Scope, check,
  record_assumption, changed, refuse_recorded, settle, advance, after, assume, assume_relation,
  push, pop, check_facts, assume_facts, undo, enter_pushed, enter_checked, enter, leave,
}
use fortsym.Assumptions.Answers.{Objects, predicate}
use fortsym.Assumptions.Coherence.{Coherent, IsAnswer, Asked, changed-Coherent, predicate-IsAnswer}

module _ {A : Type 0} (native : Native) (kernel : Kernel A) (objects : Objects) where
  -- Coherent, with no derivation recording.
  pub record Sound (s : Session A) : Type 0 where
    pub coherent : Coherent native kernel objects s
    pub unrecorded : s.recorder ≡ none

  changed-Sound : (c : A) (s : Session A) → Sound s → Sound (changed c s)
  unfolding changed
  changed-Sound c s h = record {
    coherent = changed-Coherent native kernel objects c s h.coherent;
    unrecorded = h.unrecorded;
  }

  advance-Sound : (s : Session A) (r : Result A) → Sound s → Sound (advance s r).1
  advance-Sound s (ok c) h = changed-Sound c s h
  advance-Sound s (err x) h = h

  settle-Sound :
      (s : Session A) (r : Option Recorder) (e : Expr) (fact : ℕ) (q : Result A)
      → r ≡ none
      → Sound s
      → Sound (settle s r e fact q).1
  unfolding record_assumption
  settle-Sound s none e fact (ok c) n h = changed-Sound c s h
  settle-Sound s (some r) e fact (ok c) n h = absurd (cc)
  settle-Sound s r e fact (err x) n h = h

  after-Sound :
      (s : Session A) (r : Result (Unit {0})) (f : Session A → Result (Unit {0}) × Session A)
      → Sound s
      → ((t : Session A) → Sound t → Sound (f t).1)
      → Sound (after s r f).1
  after-Sound s (ok u) f h k = k s h
  after-Sound s (err x) f h k = h

  assume-Sound :
      (store : Store) (e : Expr) (fact : ℕ) (s : Session A)
      → Sound s
      → Sound (assume kernel store e fact s).1
  unfolding assume
  assume-Sound store e fact s h =
      after-Sound s (check store e)
        (λ t. settle t t.recorder e fact (kernel.assume t.context e.term fact)) h
        (λ t k.
          settle-Sound t t.recorder e fact (kernel.assume t.context e.term fact) k.unrecorded k)

  assume_relation-Sound :
      (store : Store) (e : Expr) (s : Session A)
      → Sound s
      → Sound (assume_relation kernel store e s).1
  unfolding assume_relation refuse_recorded
  assume_relation-Sound store e s h =
      after-Sound s (refuse_recorded s.recorder)
        (λ t. after t (check store e) (λ u. advance u (kernel.assume_relation u.context e.term))) h
        (λ t k.
          after-Sound t (check store e) (λ u. advance u (kernel.assume_relation u.context e.term)) k
            (λ u j. advance-Sound u (kernel.assume_relation u.context e.term) j))

  push-Sound : (s : Session A) → Sound s → Sound (push kernel s).1
  unfolding push refuse_recorded
  push-Sound s h =
      after-Sound s (refuse_recorded s.recorder) (λ t. advance t (kernel.push t.context)) h
        (λ t k. advance-Sound t (kernel.push t.context) k)

  pop-Sound : (s : Session A) → Sound s → Sound (pop kernel s).1
  unfolding pop
  pop-Sound s h = advance-Sound s (kernel.pop s.context) h

  assume_facts-Sound :
      (store : Store) (facts : List Fact) (s : Session A)
      → Sound s
      → Sound (assume_facts kernel store facts s).1
  unfolding assume_facts
  assume_facts-Sound store [] s h = h
  assume_facts-Sound store (assumption e fact ∷ facts) s h =
      let q = assume kernel store e fact s in
      after-Sound q.1 q.0 (assume_facts kernel store facts) (assume-Sound store e fact s h)
        (assume_facts-Sound store facts)
  assume_facts-Sound store (relation e ∷ facts) s h =
      let q = assume_relation kernel store e s in
      after-Sound q.1 q.0 (assume_facts kernel store facts) (assume_relation-Sound store e s h)
        (assume_facts-Sound store facts)
  assume_facts-Sound store (other ∷ facts) s h = h

  undo-Sound :
      (store : Store) (scope : Scope) (q : Result (Unit {0}) × Session A)
      → Sound q.1
      → Sound (undo kernel store scope q).1
  undo-Sound store scope (ok u, s) h = h
  undo-Sound store scope (err x, s) h = pop-Sound s h

  enter_pushed-Sound :
      (store : Store) (scope : Scope) (q : Result (Unit {0}) × Session A)
      → Sound q.1
      → Sound (enter_pushed kernel store scope q).1
  enter_pushed-Sound store scope (ok u, s) h =
      undo-Sound store scope (assume_facts kernel store scope.facts s)
        (assume_facts-Sound store scope.facts s h)
  enter_pushed-Sound store scope (err x, s) h = h

  enter_checked-Sound :
      (store : Store) (scope : Scope) (s : Session A) (r : Result (Unit {0}))
      → Sound s
      → Sound (enter_checked kernel store scope s r).1
  enter_checked-Sound store scope s (ok u) h =
      enter_pushed-Sound store scope (push kernel s) (push-Sound s h)
  enter_checked-Sound store scope s (err x) h = h

  enter-Sound :
      (store : Store) (scope : Scope) (s : Session A)
      → Sound s
      → Sound (enter kernel store scope s).1
  unfolding enter
  enter-Sound store scope s h = enter_checked-Sound store scope s (check_facts store scope.facts) h

  leave-Sound : (scope : Scope) (s : Session A) → Sound s → Sound (leave kernel scope s).1
  unfolding leave
  leave-Sound scope s h = elim (Bool-cases scope.entered) [
    | inl is_in ↦ rw is_in (pop-Sound s h)
    | inr is_out ↦ rw is_out h
  ]

  -- One operation, on the session and the handles; handles may change in any way between them.
  pub data Step : Session A × Store → Session A × Store → Type 0 where
    assumes :
        {s : Session A} {store : Store} (e : Expr) (fact : ℕ)
        → Step (s, store) ((assume kernel store e fact s).1, store)
    relates :
        {s : Session A} {store : Store} (e : Expr)
        → Step (s, store) ((assume_relation kernel store e s).1, store)
    enters :
        {s : Session A} {store : Store} (scope : Scope)
        → Step (s, store) ((enter kernel store scope s).1, store)
    leaves :
        {s : Session A} {store : Store} (scope : Scope)
        → Step (s, store) ((leave kernel scope s).1, store)
    asks :
        {s : Session A} {store : Store} (i : ℕ) (q : Query)
        → Step (s, store) (predicate native kernel objects i q s store).1
    handles : {s : Session A} {store : Store} (t : Store) → Step (s, store) (s, t)

  pub data Run : Session A × Store → Session A × Store → Type 0 where
    done : {v : Session A × Store} → Run v v
    then_step : {v w x : Session A × Store} → Run v w → Step w x → Run v x

  Asked-Sound : (s t : Session A) → Sound s → Asked native kernel objects s t → Sound t
  Asked-Sound s t h a = record { coherent = a.coherent; unrecorded = a.recorder ∙ h.unrecorded }

  Step-Sound : (v w : Session A × Store) → Step v w → Sound v.0 → Sound w.0
  Step-Sound _ _ (assumes {s = s} {store = store} e fact) h = assume-Sound store e fact s h
  Step-Sound _ _ (relates {s = s} {store = store} e) h = assume_relation-Sound store e s h
  Step-Sound _ _ (enters {s = s} {store = store} scope) h = enter-Sound store scope s h
  Step-Sound _ _ (leaves {s = s} {store = store} scope) h = leave-Sound scope s h
  Step-Sound _ _ (asks {s = s} {store = store} i q) h =
      Asked-Sound s (predicate native kernel objects i q s store).1.0 h
        (predicate-IsAnswer native kernel objects i q s store h.coherent).0
  Step-Sound _ _ (handles t) h = h

  Run-Sound : (v w : Session A × Store) → Run v w → Sound v.0 → Sound w.0
  Run-Sound _ _ done h = h
  Run-Sound v _ (then_step {w = w} {x = x} r p) h = Step-Sound w x p (Run-Sound v w r h)

  -- An arena whose assumptions are `c`, without kept answers and without a derivation.
  abbrev pub fresh : A → Session A
  fresh c = record { context = c; epoch = 0; recorder = none; caches = [] }

  fresh-Sound : (c : A) → Sound (fresh c)
  unfolding lookup
  fresh-Sound c = record {
    coherent = record { past = λ k x e. absurd (cc); right = λ i n x e p. absurd (cc) };
    unrecorded = refl;
  }

  -- In an arena without a derivation, whatever assumptions were made, scopes entered and left,
  -- predicates of matrices asked and handles opened or closed before, a predicate of a matrix answers
  -- only what it answers without its cache under the present assumptions.
  pub Run-IsAnswer :
      (c : A) (before after : Store) (s : Session A)
      → Run (fresh c, before) (s, after)
      → (i : ℕ) (q : Query) (b : Option Bool)
      → (predicate native kernel objects i q s after).0 ≡ ok b
      → IsAnswer native kernel objects s.context i q b
  Run-IsAnswer c before after s r i q =
      let h = Run-Sound (fresh c, before) (s, after) r (fresh-Sound c) in
      (predicate-IsAnswer native kernel objects i q s after h.coherent).1
