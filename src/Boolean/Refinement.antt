-- ===== src/Boolean/Refinement.antt =====
-- `_boolean_values` and the connectives on values, by their truth.
use fortsym.Base.{
  String, ◌≡◌, refl, sym, ap, ◌∙◌, Bool, false, ◌&&◌, ◌||◌, List, [], ◌∷◌, ◌++◌, map, all, any,
  Result, ok, err,
}
use fortsym.Handles.{
  Native, Term, Expr, Store, Action, pure, lift, ◌>>=◌, open_handle, require, check_all, function,
}
use fortsym.Boolean.Values.{
  Argument, wild, int, identifier, source, other, Value, flag, node, convert, classify, append_if,
  classified, converted, collect_one, collect, boolean_values, keep_value, nodes_of,
  boolean_function, Body, settle, run_body, with_values,
}
use fortsym.Boolean.Functions.{is_constant, join}
use fortsym.Boolean.Results.{OnOk, Gives, Gives-pure, Gives-lift, Gives-bind}
use fortsym.Boolean.Truth.{
  IsSound, value_truth, argument_truth, Means, StandsFor, classify-Gives, convert-Gives,
  require-Gives,
}
use mathlib.Core.List.{append_assoc, append-nil}

map-append : {A B : Type 0} (f : A → B) (k l : List A) → map f (k ++ l) ≡ map f k ++ map f l
map-append f [] l = refl
map-append f (a ∷ k) l = ap (λ m. f a ∷ m) (map-append f k l)

pub all-map : {A : Type 0} (f : A → Bool) (l : List A) → all (λ b. b) (map f l) ≡ all f l
all-map f [] = refl
all-map f (a ∷ l) = ap (λ b. f a && b) (all-map f l)

pub any-map : {A : Type 0} (f : A → Bool) (l : List A) → any (λ b. b) (map f l) ≡ any f l
any-map f [] = refl
any-map f (a ∷ l) = ap (λ b. f a || b) (any-map f l)

module _ (native : Native) (truth : Term → Bool) (sound : IsSound native truth) where
  abbrev pub truths : List Value → List Bool
  truths values = map (value_truth truth) values

  abbrev pub argument_truths : List Argument → List Bool
  argument_truths arguments = map (argument_truth native truth) arguments

  -- The value of one argument.
  abbrev Collected : Argument → Value × List Expr → Type 0
  Collected a (v, owned) = value_truth truth v ≡ argument_truth native truth a

  converted-Collected :
      (a : Argument) (temporary : List Expr) (r : Result (Expr × Bool)) (s : Store)
      → OnOk (StandsFor native truth sound a) r
      → OnOk (Collected a) (converted temporary (r, s)).0
  converted-Collected a temporary (err x) s h = tt
  converted-Collected a temporary (ok (e, made)) s h =
      let c = classify e s in go c.0 c.1 ((classify-Gives native truth sound e).at s)
    where
      go :
          (r : Result Value) (t : Store)
          → OnOk (Means native truth sound e.term) r
          → OnOk (Collected a) (classified (append_if made e temporary) (r, t)).0
      go (err x) t g = tt
      go (ok v) t g = g ∙ h

  collect_one-Gives :
      (a : Argument) (temporary : List Expr) → Gives (Collected a) (collect_one native a temporary)
  unfolding collect_one
  collect_one-Gives a temporary = record {
    at = λ s.
        let c = convert native a s in
        converted-Collected a temporary c.0 c.1 ((convert-Gives native truth sound a).at s);
  }

  abbrev AllCollected : List Argument → List Value → List Value × List Expr → Type 0
  AllCollected arguments values (all_values, owned) =
      truths all_values ≡ truths values ++ argument_truths arguments

  later-AllCollected :
      (a : Argument) (rest : List Argument) (values : List Value) (v : Value)
      (r : List Value × List Expr)
      → value_truth truth v ≡ argument_truth native truth a
      → AllCollected rest (values ++ v ∷ []) r
      → AllCollected (a ∷ rest) values r
  later-AllCollected a rest values v r h g =
      g
      ∙ ap (λ l. l ++ argument_truths rest) (map-append (value_truth truth) values (v ∷ []))
      ∙ append_assoc (truths values) (value_truth truth v ∷ []) (argument_truths rest)
      ∙ ap (λ b. truths values ++ b ∷ argument_truths rest) h

  AllCollected-at :
      (a : Argument) (rest : List Argument) (values : List Value) (v : Value)
      (m : Action (List Value × List Expr))
      → value_truth truth v ≡ argument_truth native truth a
      → Gives (AllCollected rest (values ++ v ∷ [])) m
      → Gives (AllCollected (a ∷ rest) values) m
  AllCollected-at a rest values v m h g = record { at = λ s. go (m s).0 (g.at s) }
    where
      go :
          (r : Result (List Value × List Expr))
          → OnOk (AllCollected rest (values ++ v ∷ [])) r
          → OnOk (AllCollected (a ∷ rest) values) r
      go (err x) k = tt
      go (ok r) k = later-AllCollected a rest values v r h k

  next :
      (a : Argument) (rest : List Argument) (values : List Value) (temporary : List Expr)
      → ((more : List Value) (owned : List Expr)
          → Gives (AllCollected rest more) (collect native rest more owned))
      → Gives (AllCollected (a ∷ rest) values) (
          collect_one native a temporary >>= λ (value, owned).
          collect native rest (values ++ value ∷ []) owned)
  next a rest values temporary later =
      Gives-bind (collect_one native a temporary)
        (λ (value, owned). collect native rest (values ++ value ∷ []) owned)
        (collect_one-Gives a temporary)
        (λ (value, owned) h.
          AllCollected-at a rest values value (collect native rest (values ++ value ∷ []) owned) h
            (later (values ++ value ∷ []) owned))

  collect-Gives :
      (arguments : List Argument) (values : List Value) (temporary : List Expr)
      → Gives (AllCollected arguments values) (collect native arguments values temporary)
  unfolding collect
  collect-Gives [] values temporary =
      Gives-pure (values, temporary) (sym (append-nil (truths values)))
  collect-Gives (Argument.flag b ∷ rest) values temporary =
      AllCollected-at (Argument.flag b) rest values (flag b)
        (collect native rest (values ++ flag b ∷ []) temporary) refl
        (collect-Gives rest (values ++ flag b ∷ []) temporary)
  collect-Gives (Argument.node e ∷ rest) values temporary =
      next (Argument.node e) rest values temporary (collect-Gives rest)
  collect-Gives (wild e ∷ rest) values temporary =
      next (wild e) rest values temporary (collect-Gives rest)
  collect-Gives (int n ∷ rest) values temporary =
      next (int n) rest values temporary (collect-Gives rest)
  collect-Gives (identifier s ∷ rest) values temporary =
      next (identifier s) rest values temporary (collect-Gives rest)
  collect-Gives (source s ∷ rest) values temporary =
      next (source s) rest values temporary (collect-Gives rest)
  collect-Gives (other ∷ rest) values temporary =
      next other rest values temporary (collect-Gives rest)

  -- A body on the values gives the truth that `fold` gives of the arguments.
  pub with_values-Gives :
      (fold : List Bool → Bool) (arguments : List Argument) (body : Body)
      → ((values : List Value) (temporary : List Expr)
          → Gives (λ (v, left). value_truth truth v ≡ fold (truths values)) (body values temporary))
      → Gives
          (λ v. value_truth truth v ≡ fold (argument_truths arguments))
          (with_values native arguments body)
  unfolding with_values boolean_values
  with_values-Gives fold arguments body h = record {
    at = λ s.
        let c = collect native arguments [] [] s in
        ran c.0 c.1 ((collect-Gives arguments [] []).at s);
  }
    where
      settled :
          (values : List Value) (temporary : List Expr) (r : Result (Value × List Expr)) (t : Store)
          → OnOk (λ (v, left). value_truth truth v ≡ fold (truths values)) r
          → truths values ≡ argument_truths arguments
          → OnOk
              (λ v. value_truth truth v ≡ fold (argument_truths arguments))
              (settle temporary (r, t)).0
      settled values temporary (err x) t g same = tt
      settled values temporary (ok (v, left)) t g same = g ∙ ap fold same

      ran :
          (r : Result (List Value × List Expr)) (t : Store)
          → OnOk (AllCollected arguments []) r
          → OnOk
              (λ v. value_truth truth v ≡ fold (argument_truths arguments))
              (run_body body (r, t)).0
      ran (err x) t g = tt
      ran (ok (values, temporary)) t g =
          let b = body values temporary t in
          settled values temporary b.0 b.1 ((h values temporary).at t) g

  abbrev term_of : Expr → Term
  term_of e = e.term

  check_all-Gives : (es : List Expr) → Gives (λ ts. ts ≡ map term_of es) (check_all es)
  unfolding check_all
  check_all-Gives [] = Gives-pure [] refl
  check_all-Gives (e ∷ es) =
      Gives-bind (require e) (λ _. check_all es >>= λ ts. pure (e.term ∷ ts)) (require-Gives e)
        (λ u h.
          Gives-bind (check_all es) (λ ts. pure (e.term ∷ ts)) (check_all-Gives es)
            (λ ts p. Gives-pure (e.term ∷ ts) (ap (λ l. e.term ∷ l) p)))

  -- No value is a constant.
  abbrev pub has_constant : List Value → Bool
  has_constant values = any is_constant values

  node_truths :
      (values : List Value)
      → has_constant values ≡ false
      → map truth (map term_of (nodes_of values)) ≡ truths values
  node_truths [] h = refl
  node_truths (flag b ∷ values) h = absurd (cc)
  node_truths (node e ∷ values) h = ap (λ l. truth e.term ∷ l) (node_truths values h)

  module _ (name : String) (unit : Bool) (fold : List Bool → Bool) (fold_nil : fold [] ≡ unit)
      (fold_one : (b : Bool) → fold (b ∷ []) ≡ b)
      (built : (ts : List Term) (t : Term)
        → native.apply name ts ≡ ok t
        → truth t ≡ fold (map truth ts)) where
    applied-Gives :
        (es : List Expr)
        → Gives (λ e. truth e.term ≡ fold (map truth (map term_of es))) (function native name es)
    unfolding function open_handle
    applied-Gives es =
        Gives-bind (check_all es) (λ ts. lift (native.apply name ts) >>= open_handle)
          (check_all-Gives es)
          (λ ts p.
            Gives-bind (lift (native.apply name ts)) open_handle
              (Gives-lift (native.apply name ts) (truth_of ts p (native.apply name ts) refl))
              (λ t q. record { at = λ s. q }))
      where
        truth_of :
            (ts : List Term)
            → ts ≡ map term_of es
            → (r : Result Term) → native.apply name ts ≡ r
            → OnOk (λ t. truth t ≡ fold (map truth (map term_of es))) r
        truth_of ts p (err x) e = tt
        truth_of ts p (ok t) e = built ts t e ∙ ap (λ l. fold (map truth l)) p

    pub join-Gives :
        (values : List Value) (temporary : List Expr)
        → has_constant values ≡ false
        → Gives
            (λ (v, left). value_truth truth v ≡ fold (truths values))
            (join native name unit values temporary)
    unfolding keep_value boolean_function
    join-Gives [] temporary h = Gives-pure (flag unit, temporary) (sym fold_nil)
    join-Gives (flag b ∷ []) temporary h = absurd (cc)
    join-Gives (node e ∷ []) temporary h =
        Gives-pure (keep_value (node e) temporary) (sym (fold_one (truth e.term)))
    join-Gives (v ∷ w ∷ values) temporary h =
        Gives-bind (boolean_function native name (v ∷ w ∷ values))
          (λ result. pure (result, temporary))
          (Gives-bind (function native name (nodes_of (v ∷ w ∷ values))) (λ e. pure (node e))
            (applied-Gives (nodes_of (v ∷ w ∷ values)))
            (λ e q. Gives-pure (node e) (q ∙ ap fold (node_truths (v ∷ w ∷ values) h))))
          (λ result q. Gives-pure (result, temporary) q)
