-- ===== src/Boolean/Ownership/Quiet.antt =====
-- Operations that open and close no handle.
use fortsym.Base.{
  ℕ, ◌≡◌, refl, ap, ◌∙◌, inl, inr, Bool, true, false, List, [], ◌∷◌, ◌++◌, Error, Result, ok, err,
  Bool-cases, if◌then◌else◌,
}
use fortsym.Handles.{
  Expr, Store, Action, pure, raise, lift, continue, ◌>>=◌, update, require, get_kind, exact_text,
  get_name, kind_of, text_of, name_of,
}
use fortsym.Handles.Frame.{Frame, Frame-same, Frame-IsFresh, Frame-trans}

-- An action that opens and closes nothing, and whose result satisfies `P`.
abbrev pub QuietEnds : {A : Type 0} → (A → Type 0) → Store → Result A × Store → Type 0
QuietEnds P s (err x, t) = (t.next ≡ s.next) × ((i : ℕ) → t.live i ≡ s.live i)
QuietEnds P s (ok a, t) = (t.next ≡ s.next) × ((i : ℕ) → t.live i ≡ s.live i) × P a

pub record Quiet {A : Type 0} (P : A → Type 0) (m : Action A) : Type 0 where
  pub at : (s : Store) → QuietEnds P s (m s)

module _ {A : Type 0} {P : A → Type 0} where
  pub Quiet-pure : (a : A) → P a → Quiet P (pure a)
  Quiet-pure a h = record { at = λ s. (refl, λ i. refl, h) }

  pub Quiet-raise : (x : Error) → Quiet P (raise x)
  Quiet-raise x = record { at = λ s. (refl, λ i. refl) }

  pub Quiet-lift : (r : Result A) → ((a : A) → r ≡ ok a → P a) → Quiet P (lift r)
  Quiet-lift (ok a) h = record { at = λ s. (refl, λ i. refl, h a refl) }
  Quiet-lift (err x) h = record { at = λ s. (refl, λ i. refl) }

  pub Quiet-if : (b : Bool) (m n : Action A) → Quiet P m → Quiet P n → Quiet P (if b then m else n)
  Quiet-if true m n h k = h
  Quiet-if false m n h k = k

abbrev pub Any : {A : Type 0} → A → Type 0
Any a = Unit {0}

module _ {A B : Type 0} {P : B → Type 0} where
  pub Quiet-continue :
      (r : Result A) (s t : Store) (f : A → Action B)
      → QuietEnds Any s (r, t)
      → ((a : A) → Quiet P (f a))
      → QuietEnds P s (continue r f t)
  Quiet-continue (err x) s t f h k = h
  Quiet-continue (ok a) s t f h k = chain (f a t) ((k a).at t)
    where
      chain : (q : Result B × Store) → QuietEnds P t q → QuietEnds P s q
      chain (err x, u) g = (g.0 ∙ h.0, λ i. g.1 i ∙ h.1 i)
      chain (ok b, u) g = (g.0 ∙ h.0, λ i. g.1 i ∙ h.1 i, g.2)

  pub Quiet-bind :
      (m : Action A) (f : A → Action B)
      → Quiet Any m
      → ((a : A) → Quiet P (f a))
      → Quiet P (m >>= f)
  Quiet-bind m f h k = record { at = λ s. let q = m s in Quiet-continue q.0 s q.1 f (h.at s) k }

pub require-Quiet : (e : Expr) → Quiet Any (require e)
unfolding require
require-Quiet e = record {
  at = λ s. elim (Bool-cases (s.live e.id)) [
    | inl live ↦ rw live (refl, λ i. refl, tt)
    | inr closed ↦ rw closed (refl, λ i. refl)
  ];
}

pub ruleset quiet_rules = (Quiet-pure, Quiet-raise, Quiet-if, Quiet-bind, require-Quiet)

pub get_kind-Quiet : (e : Expr) → Quiet Any (get_kind e)
unfolding get_kind
get_kind-Quiet e =
    Quiet-bind (require e)
      (λ _ s. (ok (kind_of e.term), record s { cached = update s.cached e.id true }))
      (require-Quiet e) (λ _. record { at = λ s. (refl, λ i. refl, tt) })

pub exact_text-Quiet : (e : Expr) → Quiet Any (exact_text e)
unfolding exact_text
exact_text-Quiet e =
    Quiet-bind (require e) (λ _. pure (text_of e.term)) (require-Quiet e)
      (λ _. Quiet-pure (text_of e.term) tt)

pub get_name-Quiet : (e : Expr) → Quiet Any (get_name e)
unfolding get_name
get_name-Quiet e =
    Quiet-bind (require e) (λ _. pure (name_of e.term)) (require-Quiet e)
      (λ _. Quiet-pure (name_of e.term) tt)

pub append-empty : (l : List ℕ) → l ++ [] ≡ l
append-empty [] = refl
append-empty (i ∷ l) = ap (λ k. i ∷ k) (append-empty l)

pub Frame-quiet :
    (s t u : Store) (o : List ℕ)
    → Frame s t o
    → u.next ≡ t.next
    → ((i : ℕ) → u.live i ≡ t.live i)
    → Frame s u o
Frame-quiet s t u o f n l =
    rw (← append-empty o) (Frame-trans s t u o [] f (Frame-same t u (Frame-IsFresh s t o f) n l))

-- A later step that leaves nothing open.
pub Frame-settled : (s t u : Store) (o : List ℕ) → Frame s t o → Frame t u [] → Frame s u o
Frame-settled s t u o f g = rw (← append-empty o) (Frame-trans s t u o [] f g)
