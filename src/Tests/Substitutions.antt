-- ===== src/Tests/Substitutions.antt =====
-- The theorems on substitution at two symbols and two numbers.
use fortsym.Base.{
  ℕ, ◌≤◌, ◌≡◌, refl, true, none, List, [], ◌∷◌, length, ok, nat_eq, arith, ltb, false,
}
use fortsym.Handles.Frame.{IsFresh, Frame-open}
use fortsym.Boolean.Ownership.Opening.{Opens}
use fortsym.Handles.{Store, Expr, opened, new_handle, number, symbol, add, nil, cons}
use fortsym.Substitution.Ownership.{made_for, subs_mapping-Opens}
use fortsym.Substitution.{
  Rewriter, subs_mapping, Rule, replace_all, replace_each, is_safe, can_use_subs_many, Signature,
}
use fortsym.Substitution.Cascade.{call, nested, is_safe-cascade}
use fortsym.Substitution.Answers.{
  Request, answer_all, AreAnswered, answer_all-AreAnswered, can_use_subs_many-stale,
}

abbrev rules : List Rule
rules = (symbol "x", number 1 "1") ∷ (symbol "y", number 1 "2") ∷ []

is_safe-cascade_example :
    (is_safe (nested "f" (cons (symbol "x") (cons (symbol "y") nil)) (symbol "z") (number 1 "1"))
      ≡ true)
    × (replace_each
          (nested "f" (cons (symbol "x") (cons (symbol "y") nil)) (symbol "z") (number 1 "1"))
          (call "f" (add (cons (symbol "x") (cons (symbol "y") nil))))
        ≡ number 1 "1")
    × (replace_all
          (nested "f" (cons (symbol "x") (cons (symbol "y") nil)) (symbol "z") (number 1 "1"))
          (call "f" (add (cons (symbol "x") (cons (symbol "y") nil))))
        ≡ call "f" (symbol "z"))
is_safe-cascade_example =
    is_safe-cascade "f" (cons (symbol "x") (cons (symbol "y") nil)) (symbol "z") (number 1 "1") refl
      refl

abbrev cascading : List Rule
cascading = (symbol "x", symbol "y") ∷ (symbol "y", number 1 "2") ∷ []

abbrev addresses : Signature
addresses = (100, 200) ∷ (300, 400) ∷ []

can_use_subs_many-stale_example :
    can_use_subs_many (can_use_subs_many [] rules addresses).1 cascading addresses
    ≡ can_use_subs_many [] rules addresses
can_use_subs_many-stale_example = can_use_subs_many-stale [] rules cascading addresses

-- Objects are numbers, all at one address.
abbrev nowhere : ℕ → ℕ
nowhere n = 0

-- Three calls in one epoch: the result of the first is not for the second's inputs, and the third
-- has the first's inputs.
abbrev requests : List (Request ℕ ℕ)
requests =
    record { epoch = 1; inputs = (1, 2) ∷ []; made = ok 10; has_handle = λ r. true }
    ∷ record { epoch = 1; inputs = (1, 3) ∷ []; made = ok 11; has_handle = λ r. true }
    ∷ record { epoch = 1; inputs = (1, 3) ∷ []; made = ok 12; has_handle = λ r. true }
    ∷ []

requests_answered : (answer_all nowhere requests []).0 ≡ ok 10 ∷ ok 11 ∷ ok 11 ∷ []
unfolding answer_all
requests_answered = refl

answer_all-AreAnswered_example :
    AreAnswered nowhere [] requests (answer_all nowhere requests []).0
    × (length (answer_all nowhere requests []).1 ≤ 8)
answer_all-AreAnswered_example = answer_all-AreAnswered nowhere requests

-- The native library replaces at the top and expands nothing.
abbrev top_only : Rewriter
top_only = record {
  substitute = λ t old new. ok new;
  substitute_many = λ t olds news. ok t;
  expand = λ t. ok t;
}

-- Two expressions of the caller are open.
abbrev before : Store
before = record { next = 2; live = λ i. ltb i 2; cached = λ i. false }

abbrev x_handle : Expr
x_handle = record { id = 0; term = symbol "x" }

abbrev y_handle : Expr
y_handle = record { id = 1; term = symbol "y" }

abbrev two : Expr
two = new_handle (number 1 "2") before

before-IsFresh : IsFresh before
before-IsFresh i h = ground arith

subs_mapping-Opens_example : Opens (made_for false false none) before (
    subs_mapping top_only x_handle
      ((x_handle, y_handle) ∷ (y_handle, two) ∷ [])
      (two ∷ [])
      false
      false
      none
      (opened before))
subs_mapping-Opens_example =
    subs_mapping-Opens top_only x_handle ((x_handle, y_handle) ∷ (y_handle, two) ∷ []) (two ∷ [])
      false false none before (opened before) (Frame-open before before-IsFresh)
