-- ===== src/Boolean/Truth.antt =====
-- The truth of terms, of values and of arguments.
use fortsym.Base.{
  ℕ, String, ◌≡◌, refl, sym, ap, ◌∙◌, inl, inr, Bool, true, false, List, [], ◌∷◌, all, any,
  native_status, type_error, unsupported, Result, ok, err, ◌==◌, nat_eq, string_eq, contains,
  Bool-cases, if◌then◌else◌,
}
use fortsym.Handles.{
  Native, Term, number, symbol, constant, add, mul, pow, func, kind_of, text_of, Expr, pure, raise,
  lift, ◌>>=◌, open_handle, require, get_kind, exact_text, get_name, update,
}
use fortsym.Boolean.Values.{
  Argument, wild, int, identifier, source, other, Value, flag, node, convert, number_kinds,
  expression_heads, numeric_value, head_value, classify_kind, classify,
}
use fortsym.Boolean.Results.{OnOk, Gives, Gives-pure, Gives-raise, Gives-lift, Gives-if, Gives-bind}

-- What the code relies on of the native library, for the truth of terms: 0 is false, 1 is true, and
-- the terms that it builds for "And" and "Or" mean the conjunction and the disjunction.
pub record IsSound (native : Native) (truth : Term → Bool) : Type 0 where
  pub zero_false : (k : ℕ) → truth (number k "0") ≡ false
  pub one_true :
      (k : ℕ) (text : String)
      → contains text ("1" ∷ "1/1" ∷ []) ≡ true
      → truth (number k text) ≡ true
  pub conjoined :
      (ts : List Term) (t : Term) → native.apply "And" ts ≡ ok t → truth t ≡ all truth ts
  pub disjoined : (ts : List Term) (t : Term) → native.apply "Or" ts ≡ ok t → truth t ≡ any truth ts

abbrev pub value_truth : (Term → Bool) → Value → Bool
value_truth truth (flag b) = b
value_truth truth (node e) = truth e.term

abbrev pub result_truth : (Term → Bool) → Result Term → Bool
result_truth truth (ok t) = truth t
result_truth truth (err x) = false

-- The truth of an argument; those of other classes raise.
abbrev pub argument_truth : Native → (Term → Bool) → Argument → Bool
argument_truth native truth (Argument.flag b) = b
argument_truth native truth (Argument.node e) = truth e.term
argument_truth native truth (wild e) = truth e.term
argument_truth native truth (int n) = result_truth truth (native.integer n)
argument_truth native truth (identifier s) = result_truth truth (native.make_symbol s)
argument_truth native truth (source s) = false
argument_truth native truth other = false

number_term :
    (t : Term) → contains (kind_of t) number_kinds ≡ true → (k : ℕ) × (t ≡ number k (text_of t))
number_term (number k s) h = (k, refl)
number_term (symbol s) h = absurd (cc)
number_term (constant s) h = absurd (cc)
number_term (add ts) h = absurd (cc)
number_term (mul ts) h = absurd (cc)
number_term (pow b e) h = absurd (cc)
number_term (func s ts) h = absurd (cc)

pub require-Gives : (e : Expr) → Gives (λ _. Unit {0}) (require e)
unfolding require
require-Gives e = record { at = λ s. go (s.live e.id) }
  where
    go : (b : Bool) → OnOk (λ (u : Unit {0}). Unit {0}) (if b then ok tt else err (native_status 2))
    go true = tt
    go false = tt

get_kind-Gives : (e : Expr) → Gives (λ k. k ≡ kind_of e.term) (get_kind e)
unfolding get_kind
get_kind-Gives e =
    Gives-bind (require e)
      (λ _ s. (ok (kind_of e.term), record s { cached = update s.cached e.id true }))
      (require-Gives e) (λ u h. record { at = λ s. refl })

exact_text-Gives : (e : Expr) → Gives (λ k. k ≡ text_of e.term) (exact_text e)
unfolding exact_text
exact_text-Gives e =
    Gives-bind (require e) (λ _. pure (text_of e.term)) (require-Gives e)
      (λ u h. Gives-pure (text_of e.term) refl)

get_name-Gives : (e : Expr) → Gives (λ (k : String). Unit {0}) (get_name e)
get_name-Gives e = record { at = λ s. go (get_name e s).0 }
  where
    go : (r : Result String) → OnOk (λ (k : String). Unit {0}) r
    go (ok a) = tt
    go (err x) = tt

module _ (native : Native) (truth : Term → Bool) (sound : IsSound native truth) where
  -- A value with the truth of a term.
  abbrev pub Means : Term → Value → Type 0
  Means t v = value_truth truth v ≡ truth t

  numeric_value-Means :
      (e : Expr)
      → contains (kind_of e.term) number_kinds ≡ true
      → OnOk (Means e.term) (numeric_value (text_of e.term))
  unfolding numeric_value
  numeric_value-Means e h =
      let (k, shape) = number_term e.term h in
      elim (Bool-cases (text_of e.term == "0")) [
        | inl zero ↦
            let p : text_of e.term ≡ "0" = (string_eq.beq_iff (text_of e.term) "0").0 zero in
            rw zero (sym (ap truth shape ∙ ap (λ s. truth (number k s)) p ∙ sound.zero_false k))
        | inr nonzero ↦ elim (Bool-cases (contains (text_of e.term) ("1" ∷ "1/1" ∷ []))) [
          | inl one ↦
              rw (nonzero, one) (sym (ap truth shape ∙ sound.one_true k (text_of e.term) one))
          | inr more ↦ rw (nonzero, more) tt
        ]
      ]

  head_value-Means : (e : Expr) (name : String) → OnOk (Means e.term) (head_value e name)
  unfolding head_value
  head_value-Means e name = go (contains name expression_heads)
    where
      go : (b : Bool) → OnOk (Means e.term) (if b then ok (node e) else err type_error)
      go true = refl
      go false = tt

  classify_kind-Gives :
      (e : Expr) (kind : ℕ) → kind ≡ kind_of e.term → Gives (Means e.term) (classify_kind e kind)
  unfolding classify_kind
  classify_kind-Gives e kind same =
      Gives-if (contains kind number_kinds) (exact_text e >>= λ text. lift (numeric_value text))
        (if kind == 4
          then pure (node e)
          else if kind == 9
          then (get_name e >>= λ name. lift (head_value e name))
          else raise type_error)
        (λ h.
          Gives-bind (exact_text e) (λ text. lift (numeric_value text)) (exact_text-Gives e)
            (λ text p.
              Gives-lift (numeric_value text) (rw p (numeric_value-Means e (rw same at h)))))
        (λ h.
          Gives-if (kind == 4) (pure (node e))
            (if kind == 9
              then (get_name e >>= λ name. lift (head_value e name))
              else raise type_error)
            (λ k. Gives-pure (node e) refl)
            (λ k.
              Gives-if (kind == 9) (get_name e >>= λ name. lift (head_value e name))
                (raise type_error)
                (λ j.
                  Gives-bind (get_name e) (λ name. lift (head_value e name)) (get_name-Gives e)
                    (λ name u. Gives-lift (head_value e name) (head_value-Means e name)))
                (λ j. Gives-raise type_error)))

  pub classify-Gives : (e : Expr) → Gives (Means e.term) (classify e)
  unfolding classify
  classify-Gives e =
      Gives-bind (get_kind e) (classify_kind e) (get_kind-Gives e) (classify_kind-Gives e)

  -- An expression that stands for an argument.
  abbrev pub StandsFor : Argument → Expr × Bool → Type 0
  StandsFor a (e, made) = truth e.term ≡ argument_truth native truth a

  made-Gives :
      (r : Result Term) (a : Argument)
      → argument_truth native truth a ≡ result_truth truth r
      → Gives (StandsFor a) (lift r >>= λ t. open_handle t >>= λ e. pure (e, true))
  unfolding open_handle
  made-Gives (ok t) a h = record { at = λ s. sym h }
  made-Gives (err x) a h = record { at = λ s. tt }

  pub convert-Gives : (a : Argument) → Gives (StandsFor a) (convert native a)
  unfolding convert
  convert-Gives (Argument.flag b) = Gives-raise type_error
  convert-Gives (Argument.node e) =
      Gives-bind (require e) (λ _. pure (e, false)) (require-Gives e)
        (λ u h. Gives-pure (e, false) refl)
  convert-Gives (wild e) =
      Gives-bind (require e) (λ _. pure (e, true)) (require-Gives e)
        (λ u h. Gives-pure (e, true) refl)
  convert-Gives (int n) = made-Gives (native.integer n) (int n) refl
  convert-Gives (identifier s) = made-Gives (native.make_symbol s) (identifier s) refl
  convert-Gives (source s) = Gives-raise unsupported
  convert-Gives other = Gives-raise type_error
