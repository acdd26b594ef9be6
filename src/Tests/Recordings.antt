-- ===== src/Tests/Recordings.antt =====
-- The theorems on derivations with a native state that counts its calls.
use fortsym.Base.{ℕ, suc, ◌≡◌, refl, false, [], ◌∷◌, none, some, ok, err, value_error, nat_eq}
use fortsym.Base.Text.{Text, codes}
use fortsym.Derivations.{Kernel, World, enter, exit, export_sympy}
use fortsym.Derivations.Blocks.{
  Program, calls, exports, raises, seq, block, run, IsExclusive, IsRestored, run-IsRestored,
}
use fortsym.Derivations.Artifacts.{block-artifact, block-stale}

abbrev counting : Kernel ℕ
counting = record {
  begin = λ n. (0, suc n);
  end = λ n. suc n;
  query = λ n. (6, 1);
  export = λ n size. (0, n ∷ []);
}

abbrev idle : World ℕ
idle = record { native = 0; owner = none; active = λ d. false; source = λ d. none }

idle-IsExclusive : IsExclusive counting idle
idle-IsExclusive d = (λ h. absurd (cc), λ h. absurd (cc))

-- A session, another that is refused inside it, and an exception.
abbrev sessions : Program ℕ
sessions = seq (block 1 (exports 1)) (block 1 (seq (block 2 (calls suc)) (exports 1)))

run-IsRestored_example : IsRestored counting idle (run counting sessions idle).1
run-IsRestored_example = run-IsRestored counting sessions idle idle-IsExclusive

abbrev entered_idle : World ℕ
entered_idle = (enter counting 1 idle).1

abbrev called : World ℕ
called = (run counting (calls suc) entered_idle).1

abbrev over : World ℕ
over = (run counting (block 1 (calls suc)) idle).1

block_entered : enter counting 1 idle ≡ (ok tt, entered_idle)
unfolding enter
block_entered = refl

block_called : run counting (calls suc) entered_idle ≡ (ok tt, called)
unfolding run
block_called = refl

block_ends : run counting (block 1 (calls suc)) idle ≡ (ok tt, over)
unfolding run enter exit export_sympy
block_ends = refl

block-artifact_example :
    (text : Text) × (counting.export called.native (counting.query called.native).1 ≡ (0, text))
    × (over.source 1 ≡ some text)
    × ((n : ℕ) → export_sympy counting 1 (record over { native = n }) ≡ ok text)
block-artifact_example =
    block-artifact counting 1 (calls suc) idle entered_idle called over block_entered block_called
      block_ends

abbrev with_artifact : World ℕ
with_artifact = record {
  native = 0;
  owner = none;
  active = λ d. false;
  source = λ d. some (codes "first");
}

-- A call and then an exception.
abbrev failing : Program ℕ
failing = seq (calls suc) (raises value_error)

abbrev entered_again : World ℕ
entered_again = (enter counting 1 with_artifact).1

again_entered : enter counting 1 with_artifact ≡ (ok tt, entered_again)
unfolding enter
again_entered = refl

again_failed :
    run counting failing entered_again ≡ (err value_error, (run counting failing entered_again).1)
unfolding run
again_failed = refl

block-stale_example :
    ((run counting (block 1 failing) with_artifact).0 ≡ err value_error)
    × (export_sympy counting 1 (run counting (block 1 failing) with_artifact).1
        ≡ ok (codes "first"))
block-stale_example =
    block-stale counting 1 failing value_error with_artifact entered_again
      (run counting failing entered_again).1 (codes "first") again_entered again_failed refl
