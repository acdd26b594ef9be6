-- ===== src/Tests/Sessions.antt =====
-- The theorems on assumptions at a concrete library, whose assumptions are a sum and its saved values.
use fortsym.Base.{
  ℕ, suc, ◌+◌, ◌≡◌, refl, true, false, List, [], ◌∷◌, some, Result, ok, err, native_status, nat_beq,
}
use fortsym.Handles.{symbol, Expr, Store, new_handle}
use fortsym.Matrices.{unset}
use fortsym.Assumptions.{
  diagonal, Kernel, Recorder, Session, assumption, Scope, Objects, changed, assume, enter, leave,
  predicate,
}
use fortsym.Assumptions.Coherence.{IsAnswer}
use fortsym.Assumptions.Runs.{done, then_step, asks, assumes, fresh, Run-IsAnswer}
use fortsym.Assumptions.Scopes.{
  Within, pushed, assumed, related, Begins, Restores, scope_restores, assume_leaves_stale,
}
use fortsym.Tests.Booleans.{free, nothing, one_open}

abbrev Sums : Type 0
Sums = ℕ × List ℕ

abbrev restore : List ℕ → Result Sums
restore [] = err (native_status 1)
restore (n ∷ saved) = ok (n, saved)

-- A matrix is diagonal while no fact is assumed.
abbrev sums : Kernel Sums
sums = record {
  assume = λ a t fact. ok (a.0 + fact, a.1);
  assume_relation = λ a t. ok (suc a.0, a.1);
  push = λ a. ok (a.0, a.0 ∷ a.1);
  pop = λ a. restore a.1;
  decide = λ a t q. ok (some (nat_beq a.0 0));
}

abbrev expression : Expr
expression = new_handle (symbol "m") nothing

abbrev one_matrix : Objects
one_matrix = record {
  matrix = λ i. record { expression = expression; rows = 1; cols = 1; column = false; key = unset };
}

abbrev empty_session : Session Sums
empty_session = fresh free sums one_matrix (0, [])

abbrev asked : Session Sums × Store
asked = (predicate free sums one_matrix 0 diagonal empty_session one_open).1

abbrev assumed_session : Session Sums
assumed_session = (assume sums asked.1 expression 2 asked.0).1

-- The matrix was diagonal before the assumption, and is not behind it.
asked_again :
    (predicate free sums one_matrix 0 diagonal assumed_session asked.1).0 ≡ ok (some false)
unfolding predicate assume
asked_again = refl

Run-IsAnswer_example : IsAnswer free sums one_matrix assumed_session.context 0 diagonal (some false)
Run-IsAnswer_example =
    Run-IsAnswer free sums one_matrix (0, []) one_open asked.1 assumed_session
      (then_step (then_step done (asks 0 diagonal)) (assumes expression 2)) 0 diagonal (some false)
      asked_again

sums-saved : (a b : Sums) → Within sums a b → b.1 ≡ a.0 ∷ a.1
sums-saved a b (pushed p) = cc
sums-saved a c (assumed t fact w p) = let before = sums-saved a _ w in cc
sums-saved a c (related t w p) = let before = sums-saved a _ w in cc

sums_restores : Restores sums
sums_restores a b w = rw (sums-saved a b w) refl

abbrev scope : Scope
scope = record { facts = assumption expression 2 ∷ []; entered = false }

scope_restores_example :
    Begins sums (0, []) (enter sums one_open scope empty_session)
    × ((inner : Scope) (u : Session Sums)
        → inner.entered ≡ true
        → Within sums (0, []) u.context
        → leave sums inner u ≡ (ok (record inner { entered = false }), changed (0, []) u))
scope_restores_example = scope_restores sums sums_restores one_open scope empty_session refl

abbrev recorder : Recorder
recorder = record {
  owns = λ i. false;
  has_step = λ i. false;
  refuse = err (native_status 5);
  note = λ t fact. ok tt;
}

-- A session that records, with the answer of the predicate kept.
abbrev recording : Session Sums
recording = record asked.0 { recorder = some recorder }

abbrev after_raise : Session Sums
after_raise = (assume sums one_open expression 2 recording).1

assume_leaves_stale_example :
    ((assume sums one_open expression 2 recording).0 ≡ err (native_status 5))
    × (after_raise.context ≡ (2, []))
    × (predicate free sums one_matrix 0 diagonal after_raise one_open
        ≡ (ok (some true), (after_raise, one_open)))
unfolding assume predicate
assume_leaves_stale_example =
    assume_leaves_stale free sums one_matrix one_open recording recorder expression 2 (2, [])
      (native_status 5) 0 diagonal (some true) refl refl refl refl refl
