-- ===== src/Handles/Frame.antt =====
-- Which handles a run of operations leaves open.
use fortsym.Base.{
  ℕ, ◌≤◌, ◌<◌, ◌≡◌, refl, ◌∙◌, inl, inr, Bool, false, not, ◌&&◌, ◌||◌, List, [], ◌∷◌, ◌++◌, All,
  arith, nat_beq, ltb, contains, nat_eq, keep, Bool-cases, true,
}
use fortsym.Handles.State.{Expr, Store}
use fortsym.Handles.Ops.{opened, close, close_all}

abbrev pub ids : List Expr → List ℕ
ids [] = []
ids (e ∷ es) = e.id ∷ ids es

-- Nothing that has not been made is live.
abbrev pub IsFresh : Store → Type 0
IsFresh s = (i : ℕ) → s.next ≤ i → s.live i ≡ false

-- From `s` to `t` no older handle was opened or closed, and of the objects made since, those of
-- `owned` are live and no others.
pub record Frame (s t : Store) (owned : List ℕ) : Type 0 where
  pub grows : s.next ≤ t.next
  pub made : All (λ i. (s.next ≤ i) × (i < t.next)) owned
  pub kept : (i : ℕ) → i < s.next → t.live i ≡ s.live i
  pub opened : (i : ℕ) → s.next ≤ i → t.live i ≡ contains i owned

pub contains-below : (i n : ℕ) (l : List ℕ) → All (λ j. n ≤ j) l → i < n → contains i l ≡ false
contains-below i n [] h lt = refl
contains-below i n (j ∷ l) h lt = ground (arith, contains-below i n l h.1)

pub contains-above : (i n : ℕ) (l : List ℕ) → All (λ j. j < n) l → n ≤ i → contains i l ≡ false
contains-above i n [] h le = refl
contains-above i n (j ∷ l) h le = ground (arith, contains-above i n l h.1)

pub contains-append : (i : ℕ) (k l : List ℕ) → contains i (k ++ l) ≡ (contains i k || contains i l)
contains-append i [] l = refl
contains-append i (j ∷ k) l = ground (arith, contains-append i k l)

pub lows : (m n : ℕ) (l : List ℕ) → All (λ i. (m ≤ i) × (i < n)) l → All (λ j. m ≤ j) l
lows m n [] h = tt
lows m n (i ∷ l) h = (h.0.0, lows m n l h.1)

pub highs : (m n : ℕ) (l : List ℕ) → All (λ i. (m ≤ i) × (i < n)) l → All (λ j. j < n) l
highs m n [] h = tt
highs m n (i ∷ l) h = (h.0.1, highs m n l h.1)

widen :
    (m n m' n' : ℕ) (l : List ℕ)
    → m' ≤ m
    → n ≤ n'
    → All (λ i. (m ≤ i) × (i < n)) l
    → All (λ i. (m' ≤ i) × (i < n')) l
widen m n m' n' [] p q h = tt
widen m n m' n' (i ∷ l) p q h = ((omega arith, omega arith), widen m n m' n' l p q h.1)

All-append : (P : ℕ → Type 0) (k l : List ℕ) → All P k → All P l → All P (k ++ l)
All-append P [] l h g = g
All-append P (i ∷ k) l h g = (h.0, All-append P k l h.1 g)

pub Frame-refl : (s : Store) → IsFresh s → Frame s s []
Frame-refl s h = record { grows = omega arith; made = tt; kept = λ i _. refl; opened = h }

-- An operation that leaves `next` and `live` alone.
pub Frame-same :
    (s t : Store) → IsFresh s → t.next ≡ s.next → ((i : ℕ) → t.live i ≡ s.live i) → Frame s t []
Frame-same s t h n l = record {
  grows = omega arith;
  made = tt;
  kept = λ i _. l i;
  opened = λ i g. l i ∙ h i g;
}

pub Frame-IsFresh : (s t : Store) (o : List ℕ) → Frame s t o → IsFresh t
Frame-IsFresh s t o f i h =
    f.opened i (let g = f.grows in omega arith)
    ∙ contains-above i t.next o (highs s.next t.next o f.made) h

pub Frame-open : (s : Store) → IsFresh s → Frame s (opened s) (s.next ∷ [])
Frame-open s h = record {
  grows = omega arith;
  made = ((omega arith, omega arith), tt);
  kept = λ i lt. ground arith;
  opened = λ i le. ground (arith, h i le);
}

pub Frame-trans : (s t u : Store) (o p : List ℕ) → Frame s t o → Frame t u p → Frame s u (o ++ p)
Frame-trans s t u o p f g = record {
  grows = let a = f.grows in let b = g.grows in omega arith;
  made =
      All-append (λ i. (s.next ≤ i) × (i < u.next)) o p
        (widen s.next t.next s.next u.next o (omega arith) g.grows f.made)
        (widen t.next u.next s.next u.next p f.grows (omega arith) g.made);
  kept = λ i lt. g.kept i (let a = f.grows in omega arith) ∙ f.kept i lt;
  opened = λ i le. elim (Bool-cases (ltb i t.next)) [
    | inl below ↦ ground (
      arith,
      contains-append i o p,
      f.opened i le,
      g.kept i,
      contains-below i t.next p (lows t.next u.next p g.made),
    )
    | inr above ↦ ground (
      arith,
      contains-append i o p,
      g.opened i,
      contains-above i t.next o (highs s.next t.next o f.made),
    )
  ];
}

-- `owned` without those of `gone`.
abbrev pub minus : List ℕ → List ℕ → List ℕ
minus owned gone = keep (λ i. not (contains i gone)) owned

pub contains-keep :
    (i : ℕ) (p : ℕ → Bool) (l : List ℕ) → contains i (keep p l) ≡ (p i && contains i l)
contains-keep i p [] = ground arith
contains-keep i p (j ∷ l) = elim (Bool-cases (nat_beq i j)) [
  | inl same ↦ let e : i ≡ j = ground arith in rw e (ground (arith, contains-keep j p l))
  | inr other ↦ ground (arith, contains-keep i p l)
]

All-keep : (P : ℕ → Type 0) (p : ℕ → Bool) (l : List ℕ) → All P l → All P (keep p l)
All-keep P p [] h = tt
All-keep P p (j ∷ l) h = elim (Bool-cases (p j)) [
  | inl yes' ↦ rw yes' (h.0, All-keep P p l h.1)
  | inr no' ↦ rw no' (All-keep P p l h.1)
]

live-close_all :
    (es : List Expr) (s : Store) (i : ℕ)
    → (close_all es s).live i ≡ (s.live i && not (contains i (ids es)))
unfolding close_all
live-close_all [] s i = ground arith
live-close_all (e ∷ es) s i = ground (arith, live-close_all es (close e s) i)

pub next-close_all : (es : List Expr) (s : Store) → (close_all es s).next ≡ s.next
unfolding close_all
next-close_all [] s = refl
next-close_all (e ∷ es) s = next-close_all es (close e s)

pub Frame-close_all :
    (s t : Store) (o : List ℕ) (es : List Expr)
    → Frame s t o
    → All (λ j. s.next ≤ j) (ids es)
    → Frame s (close_all es t) (minus o (ids es))
Frame-close_all s t o es f h = record {
  grows = rw (next-close_all es t) f.grows;
  made =
      rw (next-close_all es t)
        (All-keep (λ i. (s.next ≤ i) × (i < t.next)) (λ i. not (contains i (ids es))) o f.made);
  kept = λ i lt.
      ground (arith, live-close_all es t i, f.kept i lt, contains-below i s.next (ids es) h lt);
  opened = λ i le. ground (
    arith,
    live-close_all es t i,
    f.opened i le,
    contains-keep i (λ j. not (contains j (ids es))) o,
  );
}

-- The live objects count, not how the list of them is written.
pub Frame-owned :
    (s t : Store) (o p : List ℕ)
    → Frame s t o
    → All (λ i. (s.next ≤ i) × (i < t.next)) p
    → ((i : ℕ) → contains i o ≡ contains i p)
    → Frame s t p
Frame-owned s t o p f h e = record {
  grows = f.grows;
  made = h;
  kept = f.kept;
  opened = λ i le. f.opened i le ∙ e i;
}

pub contains_made :
    (s t : Store) (o : List ℕ) (i : ℕ)
    → Frame s t o
    → contains i o ≡ true
    → (s.next ≤ i) × (i < t.next)
contains_made s t o i f h = go o f.made h
  where
    go :
        (l : List ℕ)
        → All (λ j. (s.next ≤ j) × (j < t.next)) l
        → contains i l ≡ true
        → (s.next ≤ i) × (i < t.next)
    go [] m c = absurd (cc)
    go (j ∷ l) m c = ground (arith, go l m.1)

-- Closing all that was opened leaves nothing.
pub Frame-close_owned :
    (s t : Store) (es : List Expr) → Frame s t (ids es) → Frame s (close_all es t) []
Frame-close_owned s t es f =
    let g = Frame-close_all s t (ids es) es f (lows s.next t.next (ids es) f.made) in
    Frame-owned s (close_all es t) (minus (ids es) (ids es)) [] g tt
      λ i. ground (arith, contains-keep i (λ j. not (contains j (ids es))) (ids es))
