-- ===== src/Assumptions/Changes.antt =====
-- The arena's assumptions and the operations that change them.
use fortsym.Base.{
  ℕ, suc, Bool, true, false, List, [], ◌∷◌, Option, none, some, Error, Result, ok, err,
  native_status, type_error, attribute_error, unsupported, inconsistent, ◌>>◌, guard, ◌==◌, nat_eq,
  if◌then◌else◌,
}
use fortsym.Base.Dict.{Dict}
use fortsym.Handles.{Term, Expr, Store}

-- The predicates of `Matrix`; two of them take the option `simplify`.
pub data Query : Type 0 where
  diagonal zero_matrix upper lower upper_hessenberg lower_hessenberg identity echelon hermitian :
      Query
  anti_symmetric symmetric : Bool → Query

-- The native library, whose assumptions are a value of `A`. A verdict is `none` where it is open.
pub record Kernel (A : Type 0) : Type 0 where
  pub assume : A → Term → ℕ → Result A
  pub assume_relation : A → Term → Result A
  pub push : A → Result A
  pub pop : A → Result A
  pub decide : A → Term → Query → Result (Option Bool)

-- An active `Derivation`: which objects it has recorded, which have a step of any derivation, and
-- what the native library answers to a refusal and to a recorded assumption.
pub record Recorder : Type 0 where
  pub owns : ℕ → Bool
  pub has_step : ℕ → Bool
  pub refuse : Result (Unit {0})
  pub note : Term → ℕ → Result (Unit {0})

-- `_is_..._cache`: the epoch, the option `simplify` where the predicate has one, and the answer.
pub record Entry : Type 0 where
  pub epoch : ℕ
  pub simplify : Bool
  pub answer : Option Bool

-- An arena, with the answers that its matrices keep by the object and the number of the cache.
pub record Session (A : Type 0) : Type 0 where
  pub context : A
  pub epoch : ℕ
  pub recorder : Option Recorder
  pub caches : Dict (ℕ × ℕ) Entry

-- `_Assumption`, a relation, or an object of another class.
pub data Fact : Type 0 where
  assumption : Expr → ℕ → Fact
  relation : Expr → Fact
  other : Fact

pub record Scope : Type 0 where
  pub facts : List Fact
  pub entered : Bool

-- `_check` of an expression of the arena.
abbrev pub check : Store → Expr → Result (Unit {0})
check store e = guard (store.live e.id) (native_status 2)

-- `Derivation._step`
unfoldable pub step : Recorder → Expr → Result (Unit {0})
step r e = if r.owns e.id then ok tt else r.refuse >> guard (r.has_step e.id) attribute_error

-- `if self._derivation is not None: self._derivation.assume(expression, fact)`
unfoldable pub record_assumption : Option Recorder → Expr → ℕ → Result (Unit {0})
unfolding step
record_assumption none e fact = ok tt
record_assumption (some r) e fact = step r e >> r.note e.term fact

-- `if self._derivation is not None: self._derivation.refuse(...)`
unfoldable pub refuse_recorded : Option Recorder → Result (Unit {0})
refuse_recorded none = ok tt
refuse_recorded (some r) = r.refuse

-- What is raised, or `next` where nothing is.
abbrev pub either : {B : Type 0} → Result (Unit {0}) → Result B → Result B
either (ok u) next = next
either (err x) next = err x

module _ {A : Type 0} where
  -- `_assumption_changed`, when the native library has the assumptions `c`, without the answers of
  -- `Expr.is_algebraic`.
  unfoldable pub changed : A → Session A → Session A
  changed c s = record s { context = c; epoch = suc s.epoch }

  abbrev pub finish : Session A → A → Result (Unit {0}) → Result (Unit {0}) × Session A
  finish s c (ok u) = (ok tt, changed c s)
  finish s c (err x) = (err x, record s { context = c })

  abbrev pub settle :
      Session A → Option Recorder → Expr → ℕ → Result A → Result (Unit {0}) × Session A
  settle s r e fact (ok c) = finish s c (record_assumption r e fact)
  settle s r e fact (err x) = (err x, s)

  abbrev pub advance : Session A → Result A → Result (Unit {0}) × Session A
  advance s (ok c) = (ok tt, changed c s)
  advance s (err x) = (err x, s)

  abbrev pub after :
      Session A
      → Result (Unit {0})
      → (Session A → Result (Unit {0}) × Session A)
      → Result (Unit {0}) × Session A
  after s (ok u) f = f s
  after s (err x) f = (err x, s)

module _ {A : Type 0} (kernel : Kernel A) (store : Store) where
  -- `Arena.assume`
  unfoldable pub assume : Expr → ℕ → Session A → Result (Unit {0}) × Session A
  unfolding record_assumption changed
  assume e fact s =
      after s (check store e)
        (λ t. settle t t.recorder e fact (kernel.assume t.context e.term fact))

  -- `Arena.assume_relation`
  unfoldable pub assume_relation : Expr → Session A → Result (Unit {0}) × Session A
  unfolding refuse_recorded changed
  assume_relation e s =
      after s (refuse_recorded s.recorder)
        (λ t. after t (check store e) (λ u. advance u (kernel.assume_relation u.context e.term)))

module _ {A : Type 0} (kernel : Kernel A) where
  -- `_assumption_push`
  unfoldable pub push : Session A → Result (Unit {0}) × Session A
  unfolding refuse_recorded changed
  push s = after s (refuse_recorded s.recorder) (λ t. advance t (kernel.push t.context))

  -- `_assumption_pop`
  unfoldable pub pop : Session A → Result (Unit {0}) × Session A
  unfolding changed
  pop s = advance s (kernel.pop s.context)

-- The first loop of `__enter__`.
unfoldable pub check_facts : Store → List Fact → Result (Unit {0})
check_facts store [] = ok tt
check_facts store (assumption e fact ∷ facts) = check store e >> check_facts store facts
check_facts store (relation e ∷ facts) = check store e >> check_facts store facts
check_facts store (other ∷ facts) = err type_error

module _ {A : Type 0} (kernel : Kernel A) (store : Store) where
  -- The second loop of `__enter__`, behind the check of every class.
  unfoldable pub assume_facts : List Fact → Session A → Result (Unit {0}) × Session A
  unfolding assume assume_relation
  assume_facts [] s = (ok tt, s)
  assume_facts (assumption e fact ∷ facts) s =
      let (r, t) = assume kernel store e fact s in after t r (assume_facts facts)
  assume_facts (relation e ∷ facts) s =
      let (r, t) = assume_relation kernel store e s in after t r (assume_facts facts)
  assume_facts (other ∷ facts) s = (err type_error, s)

  -- `except BaseException: self._arena._assumption_pop(); raise`
  abbrev pub undo : Scope → Result (Unit {0}) × Session A → Result Scope × Session A
  undo scope (ok u, s) = (ok (record scope { entered = true }), s)
  undo scope (err x, s) = let (r, t) = pop kernel s in (either r (err x), t)

  abbrev pub enter_pushed : Scope → Result (Unit {0}) × Session A → Result Scope × Session A
  enter_pushed scope (ok u, s) = undo scope (assume_facts scope.facts s)
  enter_pushed scope (err x, s) = (err x, s)

  abbrev pub enter_checked : Scope → Session A → Result (Unit {0}) → Result Scope × Session A
  enter_checked scope s (ok u) = enter_pushed scope (push kernel s)
  enter_checked scope s (err x) = (err x, s)

  -- `_AssumptionScope.__enter__`
  unfoldable pub enter : Scope → Session A → Result Scope × Session A
  unfolding check_facts assume_facts push pop
  enter scope s = enter_checked scope s (check_facts store scope.facts)

-- `_AssumptionScope.__exit__`
unfoldable pub leave : {A : Type 0} → Kernel A → Scope → Session A → Result Scope × Session A
unfolding pop
leave kernel scope s =
    if scope.entered
    then (let (r, t) = pop kernel s in (either r (ok (record scope { entered = false })), t))
    else (ok scope, s)

-- What `_AdapterAssumptionScope.__enter__` raises instead.
unfoldable pub adapted : Error → Error
adapted (native_status n) =
    if n == 5 then unsupported else if n == 7 then inconsistent else native_status n
adapted x = x

abbrev pub adapted_result : Result Scope → Result Scope
adapted_result (ok scope) = ok scope
adapted_result (err x) = err (adapted x)

-- `_AdapterAssumptionScope.__enter__`
unfoldable pub enter_adapted :
    {A : Type 0} → Kernel A → Store → Scope → Session A → Result Scope × Session A
unfolding enter adapted
enter_adapted kernel store scope s =
    let (r, t) = enter kernel store scope s in (adapted_result r, t)

-- `Arena.assuming`
abbrev pub assuming : List Fact → Scope
assuming facts = record { facts = facts; entered = false }

-- `_AdapterAssumptionScope.__exit__`
unfoldable pub leave_adapted :
    {A : Type 0} → Kernel A → Scope → Session A → Result Scope × Session A
unfolding leave
leave_adapted kernel scope s = leave kernel scope s
