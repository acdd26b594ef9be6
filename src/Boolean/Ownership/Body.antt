-- ===== src/Boolean/Ownership/Body.antt =====
-- The bodies of the Boolean functions, between the conversion of the arguments and the closing of
-- the temporaries.
use fortsym.Base.{
  ℕ, ◌≤◌, ◌<◌, ◌≡◌, ◌∙◌, inl, inr, ◌⊎◌, Bool, true, false, not, ◌&&◌, List, [], ◌∷◌, ◌++◌, All,
  Error, Result, ok, err, arith, Bool-cases, contains, nat_eq, nat_beq,
}
use fortsym.Handles.{Native, Expr, Store, close_all}
use fortsym.Handles.Frame.{
  ids, IsFresh, Frame, Frame-close_all, Frame-owned, Frame-close_owned, contains-below,
  contains-keep, contains_made, minus, lows, next-close_all,
}
use fortsym.Boolean.Values.{
  Value, flag, node, Argument, Body, settle, run_body, without, boolean_values, with_values,
}
use fortsym.Boolean.Ownership.Collect.{
  IsKnown, IsHeld, Collected, AllHeld, boolean_values-Collected,
}
use fortsym.Boolean.Ownership.Opening.{Frame-close_some}

-- How a call that began at `s` ends: after a raise, and with a constant, every handle is as it was;
-- an expression that is returned is live, and it is either an older one or the only new one.
abbrev pub Ends : Store → Result Value × Store → Type 0
Ends s (err x, t) = Frame s t []
Ends s (ok (flag b), t) = Frame s t []
Ends s (ok (node e), t) =
    (Frame s t [] × (e.id < s.next) × (t.live e.id ≡ true)) ⊎ Frame s t (e.id ∷ [])

-- How a body ends, with the temporaries `es` of the call still open.
pub data BodyEnds (s : Store) (es : List Expr) : Result (Value × List Expr) × Store → Type 0 where
  raised : {x : Error} {t : Store} → Frame s t (ids es) → BodyEnds s es (err x, t)
  decided : {b : Bool} {t : Store} → Frame s t (ids es) → BodyEnds s es (ok (flag b, es), t)
  held :
      {e : Expr} {t : Store}
      → Frame s t (ids es)
      → IsHeld s es (node e)
      → BodyEnds s es (ok (node e, without e es), t)
  made :
      {e : Expr} {t : Store}
      → Frame s t (ids es ++ e.id ∷ [])
      → contains e.id (ids es) ≡ false
      → (s.next ≤ e.id) × (e.id < t.next)
      → All (λ j. s.next ≤ j) (ids es)
      → BodyEnds s es (ok (node e, es), t)

contains-without :
    (i : ℕ) (e : Expr) (es : List Expr)
    → contains i (ids (without e es)) ≡ (not (nat_beq i e.id) && contains i (ids es))
contains-without i e [] = ground arith
contains-without i e (d ∷ es) = elim (Bool-cases (nat_beq d.id e.id)) [
  | inl same ↦ rw same (ground (arith, contains-without i e es))
  | inr other ↦ rw other (ground (arith, contains-without i e es))
]

All-without :
    (P : ℕ → Type 0) (e : Expr) (es : List Expr) → All P (ids es) → All P (ids (without e es))
All-without P e [] h = tt
All-without P e (d ∷ es) h = elim (Bool-cases (nat_beq d.id e.id)) [
  | inl same ↦ rw same (All-without P e es h.1)
  | inr other ↦ rw other (h.0, All-without P e es h.1)
]

-- Closing all temporaries but the value that is returned.
held-Ends :
    (s t : Store) (e : Expr) (es : List Expr)
    → Frame s t (ids es)
    → IsHeld s es (node e)
    → Ends s (ok (node e), close_all (without e es) t)
held-Ends s t e es f h = finish h
  where
    low : All (λ j. s.next ≤ j) (ids es)
    low = lows s.next t.next (ids es) f.made

    left : Frame s (close_all (without e es) t) (minus (ids es) (ids (without e es)))
    left = Frame-close_all s t (ids es) (without e es) f (All-without (λ j. s.next ≤ j) e es low)

    finish : IsHeld s es (node e) → Ends s (ok (node e), close_all (without e es) t)
    finish (inl (older, live)) = inl (
      Frame-owned s (close_all (without e es) t) (minus (ids es) (ids (without e es))) [] left tt
          λ i. ground (
            arith,
            contains-keep i (λ j. not (contains j (ids (without e es)))) (ids es),
            contains-without i e es,
            contains-below e.id s.next (ids es) low older,
          ),
      older,
      left.kept e.id older ∙ live,
    )
    finish (inr temporary) =
        let (ge, lt) = contains_made s t (ids es) e.id f temporary in
        inr (
          Frame-owned s (close_all (without e es) t) (minus (ids es) (ids (without e es)))
            (e.id ∷ []) left ((ge, rw (next-close_all (without e es) t) lt), tt)
            λ i. elim (Bool-cases (nat_beq i e.id)) [
              | inl same ↦
                  let q : i ≡ e.id = ground arith in
                  rw q (
                    ground (
                      arith,
                      contains-keep e.id (λ j. not (contains j (ids (without e es)))) (ids es),
                      contains-without e.id e es,
                    ))
              | inr other ↦ ground (
                arith,
                contains-keep i (λ j. not (contains j (ids (without e es)))) (ids es),
                contains-without i e es,
              )
            ])

settle-Ends :
    (s : Store) (es : List Expr) (q : Result (Value × List Expr) × Store)
    → BodyEnds s es q
    → Ends s (settle es q)
settle-Ends s es _ (raised {t = t} f) = Frame-close_owned s t es f
settle-Ends s es _ (decided {t = t} f) = Frame-close_owned s t es f
settle-Ends s es _ (held {e = e} {t = t} f h) = held-Ends s t e es f h
settle-Ends s es _ (made {e = e} {t = t} f apart bounds low) =
    inr (Frame-close_some s t es (e.id ∷ []) f low (apart, tt) (bounds, tt))

-- A body that ends well from every state that the conversion leaves.
abbrev pub IsTidy : Body → Type 0
IsTidy body =
    (s t : Store) (vs : List Value) (es : List Expr)
    → Frame s t (ids es)
    → All (IsHeld s es) vs
    → BodyEnds s es (body vs es t)

pub with_values-Ends :
    (native : Native) (given : List Argument) (body : Body) (s : Store)
    → IsTidy body
    → IsFresh s
    → All (IsKnown s) given
    → Ends s (with_values native given body s)
unfolding with_values
with_values-Ends native given body s tidy h k =
    go (boolean_values native given s) (boolean_values-Collected native s given h k)
  where
    go :
        (q : Result (List Value × List Expr) × Store)
        → Collected (AllHeld s) s q
        → Ends s (run_body body q)
    go (err x, t) c = c
    go (ok (vs, es), t) c = settle-Ends s es (body vs es t) (tidy s t vs es c.0 c.1)
