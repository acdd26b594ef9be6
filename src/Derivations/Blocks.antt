-- ===== src/Derivations/Blocks.antt =====
-- Programs of `with` blocks.
use fortsym.Base.{
  ℕ, zero, suc, ◌≡◌, ◌↔◌, refl, sym, ap, ◌∙◌, inl, inr, true, false, Option, none, some, ◌==◌,
  nat_eq, nat_beq_iff, Result, ok, err, Error, Bool-cases, arith,
}
use fortsym.Base.Text.{Text}
use fortsym.Derivations.Session.{
  Kernel, World, set_at, began, enter_free, enter, export_sympy, keep_source, exit, entered,
  with_block,
}

-- What a program does with derivations: native calls, exports, blocks one after the other and inside
-- one another, and exceptions.
pub data Program (N : Type 0) : Type 0 where
  calls : (N → N) → Program N
  exports : ℕ → Program N
  raises : Error → Program N
  seq : Program N → Program N → Program N
  block : ℕ → Program N → Program N

module _ {N : Type 0} (kernel : Kernel N) where
  abbrev pub exported_only : Result Text → World N → Result (Unit {0}) × World N
  exported_only (ok text) w = (ok tt, w)
  exported_only (err x) w = (err x, w)

  abbrev pub and_then :
      Result (Unit {0}) × World N
      → (World N → Result (Unit {0}) × World N)
      → Result (Unit {0}) × World N
  and_then (err x, w) next = (err x, w)
  and_then (ok u, w) next = next w

  unfoldable pub run : Program N → World N → Result (Unit {0}) × World N
  unfolding enter exit export_sympy
  run (calls f) w = (ok tt, record w { native = f w.native })
  run (exports d) w = exported_only (export_sympy kernel d w) w
  run (raises x) w = (err x, w)
  run (seq p q) w = and_then (run p w) (run q)
  run (block d p) w = with_block kernel d (run p) w

  -- The derivation that the arena names is active, and no other.
  abbrev pub IsExclusive : World N → Type 0
  IsExclusive w = (d : ℕ) → (w.active d ≡ true) ↔ (w.owner ≡ some d)

  -- The arena's derivation and which derivations are active are as before.
  abbrev pub IsRestored : World N → World N → Type 0
  IsRestored w v = (v.owner ≡ w.owner) × ((j : ℕ) → v.active j ≡ w.active j)

  restored-IsExclusive : (w v : World N) → IsRestored w v → IsExclusive w → IsExclusive v
  restored-IsExclusive w v (owner, active) h j =
      (λ a. owner ∙ (h j).0 (sym (active j) ∙ a), λ o. active j ∙ (h j).1 (sym owner ∙ o))

  -- A session that has begun.
  IsBegun : ℕ → World N → World N → Type 0
  IsBegun d w v =
      (v.owner ≡ some d) × ((j : ℕ) → v.active j ≡ set_at w.active d true j) × (w.owner ≡ none)

  Entered : ℕ → World N → Result (Unit {0}) × World N → Type 0
  Entered d w (err x, v) = IsRestored w v
  Entered d w (ok u, v) = IsBegun d w v

  enter-Entered : (d : ℕ) (w : World N) → Entered d w (enter kernel d w)
  unfolding enter Entered IsBegun
  enter-Entered d w = by_owner w.owner refl
    where
      by_status : (r : ℕ × N) → w.owner ≡ none → Entered d w (began kernel d w r)
      by_status (zero, n) free = (refl, λ j. refl, free)
      by_status (suc status, n) free = (refl, λ j. refl)

      by_owner : (o : Option ℕ) → w.owner ≡ o → Entered d w (enter_free kernel d o w)
      by_owner (some other) taken = (refl, λ j. refl)
      by_owner none free = by_status (kernel.begin w.native) free

  exit_ended :
      (d : ℕ) (r : Result (Unit {0})) (w : World N)
      → ((exit kernel d r w).1.owner ≡ none)
        × ((j : ℕ) → (exit kernel d r w).1.active j ≡ set_at w.active d false j)
  unfolding exit
  exit_ended d (err x) w = (refl, λ j. refl)
  exit_ended d (ok u) w = by_export (export_sympy kernel d w)
    where
      by_export :
          (r : Result Text)
          → ((keep_source kernel d w r).1.owner ≡ none)
            × ((j : ℕ) → (keep_source kernel d w r).1.active j ≡ set_at w.active d false j)
      by_export (err x) = (refl, λ j. refl)
      by_export (ok text) = (refl, λ j. refl)

  begun-IsExclusive : (d : ℕ) (w v : World N) → IsExclusive w → IsBegun d w v → IsExclusive v
  unfolding IsBegun
  begun-IsExclusive d w v h (owner, active, free) j = elim (Bool-cases (j == d)) [
    | inl same ↦
        let p : j ≡ d = (nat_eq.beq_iff j d).0 same in
        (λ a. owner ∙ ap some (sym p), λ o. active j ∙ rw same refl)
    | inr other ↦ (
      λ a. absurd (none_some (sym free ∙ (h j).0 (rw other at (sym (active j) ∙ a)))),
      λ o. absurd (ground (arith, nat_beq_iff j d, some_same (sym o ∙ owner))),
    )
  ]
    where
      none_some : (none ≡ some j) → ⊥
      none_some p = cc

      some_same : (some j ≡ some d) → j ≡ d
      some_same p = cc

  block-IsRestored :
      (d : ℕ) (w v u : World N) (r : Result (Unit {0}))
      → IsExclusive w
      → IsBegun d w v
      → IsRestored v u
      → IsRestored w (exit kernel d r u).1
  unfolding IsBegun
  block-IsRestored d w v u r h (owner, active, free) (same, kept) =
      let (gone, quiet) = exit_ended d r u in (gone ∙ sym free, λ j. quiet j ∙ each j)
    where
      each : (j : ℕ) → set_at u.active d false j ≡ w.active j
      each j = elim (Bool-cases (j == d)) [
        | inl at_d ↦ rw at_d (sym (inactive j))
        | inr other ↦ rw other (kept j ∙ active j ∙ rw other refl)
      ]
        where
          inactive : (j : ℕ) → w.active j ≡ false
          inactive j = elim (Bool-cases (w.active j)) [
            | inl on ↦ absurd (none_some (sym free ∙ (h j).0 on))
            | inr off ↦ off
          ]
            where
              none_some : (none ≡ some j) → ⊥
              none_some p = cc

  IsRestored-trans : (w v u : World N) → IsRestored w v → IsRestored v u → IsRestored w u
  IsRestored-trans w v u (o, a) (p, b) = (p ∙ o, λ j. b j ∙ a j)

  -- A program of exports, native calls, exceptions and nested blocks, run where the derivation that
  -- the arena names is the active one and no other is, leaves the arena's derivation and what is
  -- active as they were, whether it ends or raises.
  pub run-IsRestored : (p : Program N) (w : World N) → IsExclusive w → IsRestored w (run p w).1
  unfolding run Entered
  run-IsRestored (calls f) w h = (refl, λ j. refl)
  run-IsRestored (raises x) w h = (refl, λ j. refl)
  run-IsRestored (exports d) w h = by_export (export_sympy kernel d w)
    where
      by_export : (r : Result Text) → IsRestored w (exported_only r w).1
      by_export (ok text) = (refl, λ j. refl)
      by_export (err x) = (refl, λ j. refl)
  run-IsRestored (seq p q) w h = both (run p w) (run-IsRestored p w h) (λ v k. run-IsRestored q v k)
    where
      both :
          (r : Result (Unit {0}) × World N)
          → IsRestored w r.1
          → ((v : World N) → IsExclusive v → IsRestored v (run q v).1)
          → IsRestored w (and_then r (run q)).1
      both (err x, v) k next = k
      both (ok u, v) k next =
          IsRestored-trans w v (run q v).1 k (next v (restored-IsExclusive w v k h))
  run-IsRestored (block d p) w h =
      inside (enter kernel d w) (enter-Entered d w) (λ v k. run-IsRestored p v k)
    where
      inside :
          (r : Result (Unit {0}) × World N)
          → Entered d w r
          → ((v : World N) → IsExclusive v → IsRestored v (run p v).1)
          → IsRestored w (entered kernel d (run p) r).1
      inside (err x, v) k body = k
      inside (ok u, v) k body =
          block-IsRestored d w v (run p v).1 (run p v).0 h k (body v (begun-IsExclusive d w v h k))
