-- ===== src/Derivations/Artifacts.antt =====
-- The artifact that an export gives behind a block.
use fortsym.Base.{
  ℕ, zero, suc, ◌≡◌, ◌||◌, refl, sym, ap, ◌∙◌, inl, inr, true, Option, none, some, nat_eq, nat_beq,
  beq_refl, Result, ok, err, Error, native_status, Bool-cases, if◌then◌else◌,
}
use fortsym.Base.Text.{Text}
use fortsym.Derivations.Session.{
  Kernel, World, status_or, began, enter_free, enter, from_source, exported, after_query,
  export_sympy, keep_source, exit, entered,
}
use fortsym.Derivations.Blocks.{
  Program, calls, exports, raises, seq, block, exported_only, and_then, run,
}

module _ {N : Type 0} (kernel : Kernel N) where
  -- What a program leaves while a derivation is recorded: its owner, the artifacts, what is active.
  IsInside : ℕ → World N → World N → Type 0
  IsInside d v u =
      (u.owner ≡ some d) × ((j : ℕ) → u.source j ≡ v.source j) × ((j : ℕ) → u.active j ≡ v.active j)

  run-IsInside :
      (d : ℕ) (p : Program N) (v : World N) → v.owner ≡ some d → IsInside d v (run kernel p v).1
  unfolding run enter IsInside
  run-IsInside d (calls f) v h = (h, λ j. refl, λ j. refl)
  run-IsInside d (raises x) v h = (h, λ j. refl, λ j. refl)
  run-IsInside d (exports j) v h = by_export (export_sympy kernel j v)
    where
      by_export : (r : Result Text) → IsInside d v (exported_only kernel r v).1
      by_export (ok text) = (h, λ j. refl, λ j. refl)
      by_export (err x) = (h, λ j. refl, λ j. refl)
  run-IsInside d (seq p q) v h =
      both (run kernel p v) (run-IsInside d p v h) (λ u k. run-IsInside d q u k)
    where
      both :
          (r : Result (Unit {0}) × World N)
          → IsInside d v r.1
          → ((u : World N) → u.owner ≡ some d → IsInside d u (run kernel q u).1)
          → IsInside d v (and_then kernel r (run kernel q)).1
      both (err x, u) k next = k
      both (ok done, u) (o, s, a) next =
          let (o', s', a') = next u o in (o', λ j. s' j ∙ s j, λ j. a' j ∙ a j)
  run-IsInside d (block j p) v h = refused v.owner h
    where
      refused :
          (o : Option ℕ)
          → o ≡ some d
          → IsInside d v (entered kernel j (run kernel p) (enter_free kernel j o v)).1
      refused none k = absurd (cc)
      refused (some other) k = (h, λ j. refl, λ j. refl)

  -- What entering leaves where it does not raise.
  IsEntered : ℕ → World N → World N → Type 0
  IsEntered d w v = (v.owner ≡ some d) × (v.active d ≡ true) × ((j : ℕ) → v.source j ≡ w.source j)

  enter-IsEntered : (d : ℕ) (w v : World N) → enter kernel d w ≡ (ok tt, v) → IsEntered d w v
  unfolding enter IsEntered
  enter-IsEntered d w v h = by_owner w.owner h
    where
      by_status : (r : ℕ × N) → began kernel d w r ≡ (ok tt, v) → IsEntered d w v
      by_status (zero, n) e =
          let same = ap (λ r. r.1) e in
          (
            ap (λ u. u.owner) (sym same),
            ap (λ u. u.active d) (sym same) ∙ rw (beq_refl d) refl,
            λ j. ap (λ u. u.source j) (sym same),
          )
      by_status (suc status, n) e = absurd (cc)

      by_owner : (o : Option ℕ) → enter_free kernel d o w ≡ (ok tt, v) → IsEntered d w v
      by_owner none e = by_status (kernel.begin w.native) e
      by_owner (some other) e = absurd (cc)

  -- What the native library exports as a whole, where `export_sympy` of an active derivation returns.
  exported_whole :
      (n : N) (text : Text)
      → after_query kernel n (kernel.query n) ≡ ok text
      → kernel.export n (kernel.query n).1 ≡ (0, text)
  exported_whole n text h = queried (kernel.query n).0 h
    where
      by_status : (r : ℕ × Text) → status_or r.0 r.1 ≡ ok text → r ≡ (0, text)
      by_status (zero, t) e = let same : t ≡ text = cc in ap (λ x. (0, x)) same
      by_status (suc status, t) e = absurd (cc)

      whole :
          exported kernel n (kernel.query n).1 ≡ ok text
          → kernel.export n (kernel.query n).1 ≡ (0, text)
      whole e = by_status (kernel.export n (kernel.query n).1) e

      queried :
          (status : ℕ)
          → (let rest = exported kernel n (kernel.query n).1 in
              if nat_beq status 6 || nat_beq status 0 then rest else err (native_status status))
            ≡ ok text
          → kernel.export n (kernel.query n).1 ≡ (0, text)
      queried status e = elim (Bool-cases (nat_beq status 6 || nat_beq status 0)) [
        | inl goes_on ↦ whole (rw goes_on at e)
        | inr stops ↦ absurd (cc (rw stops at e))
      ]

  -- The end of a block behind which the derivation is active.
  exit_kept :
      (d : ℕ) (v u : World N)
      → v.active d ≡ true
      → exit kernel d (ok tt) v ≡ (ok tt, u)
      → (text : Text) × (kernel.export v.native (kernel.query v.native).1 ≡ (0, text))
        × (u.source d ≡ some text)
        × ((n : N) → export_sympy kernel d (record u { native = n }) ≡ ok text)
  unfolding exit export_sympy
  exit_kept d v u active h =
      by_export (after_query kernel v.native (kernel.query v.native)) refl (rw active at h)
    where
      by_export :
          (r : Result Text)
          → after_query kernel v.native (kernel.query v.native) ≡ r
          → keep_source kernel d v r ≡ (ok tt, u)
          → (text : Text) × (kernel.export v.native (kernel.query v.native).1 ≡ (0, text))
            × (u.source d ≡ some text)
            × ((n : N) → export_sympy kernel d (record u { native = n }) ≡ ok text)
      by_export (err x) made e = absurd (cc)
      by_export (ok text) made e =
          let same = ap (λ r. r.1) e in
          (
            text,
            exported_whole v.native text made,
            ap (λ z. z.source d) (sym same) ∙ rw (beq_refl d) refl,
            λ n.
                ap (λ z. export_sympy kernel d (record z { native = n })) (sym same)
                ∙ rw (beq_refl d) refl,
          )

  -- Where a derivation is entered, its block's body ends and the `with` statement ends too, the
  -- derivation's artifact is the text that the native library exports behind the body, and an export
  -- right behind the block returns it whatever the native state has become.
  pub block-artifact :
      (d : ℕ) (p : Program N) (w e v u : World N)
      → enter kernel d w ≡ (ok tt, e)
      → run kernel p e ≡ (ok tt, v)
      → run kernel (block d p) w ≡ (ok tt, u)
      → (text : Text) × (kernel.export v.native (kernel.query v.native).1 ≡ (0, text))
        × (u.source d ≡ some text)
        × ((n : N) → export_sympy kernel d (record u { native = n }) ≡ ok text)
  unfolding run IsInside IsEntered
  block-artifact d p w e v u entered_at ran whole =
      let (owner, active, source) = enter-IsEntered d w e entered_at in
      let (o, s, a) = rw ran at (run-IsInside d p e owner) in
      exit_kept d v u (a d ∙ active) (rw (entered_at, ran) at whole)

  -- A derivation that has an artifact of an earlier block is entered again, and the body of this
  -- block, whatever it does before, ends with an exception: the `with` statement raises it, and an
  -- export behind it returns the earlier artifact.
  pub block-stale :
      (d : ℕ) (p : Program N) (x : Error) (w e v : World N) (old : Text)
      → enter kernel d w ≡ (ok tt, e)
      → run kernel p e ≡ (err x, v)
      → w.source d ≡ some old
      → ((run kernel (block d p) w).0 ≡ err x)
        × (export_sympy kernel d (run kernel (block d p) w).1 ≡ ok old)
  unfolding run exit export_sympy IsInside IsEntered
  block-stale d p x w e v old entered_at ran kept =
      let (owner, active, source) = enter-IsEntered d w e entered_at in
      let (o, s, a) = rw ran at (run-IsInside d p e owner) in
      rw (entered_at, ran) (refl, rw (beq_refl d) (ap from_source (s d ∙ source d ∙ kept)))
