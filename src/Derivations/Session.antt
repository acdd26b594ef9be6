-- ===== src/Derivations/Session.antt =====
-- `Derivation.__init__`, `__enter__`, `__exit__` and `export_sympy`.
use fortsym.Base.{
  ℕ, zero, suc, Bool, true, false, not, ◌&&◌, ◌||◌, all, length, Option, none, some, ◌==◌, nat_eq,
  nat_beq, leb, Result, ok, err, value_error, runtime_error, native_status, if◌then◌else◌,
}
use fortsym.Base.Text.{Text}

-- The native calls, on the native state `N`; each gives a status, where 0 is success. `query` is the
-- export into no buffer, with the size, and `export` the one into a buffer of that size.
pub record Kernel (N : Type 0) : Type 0 where
  pub begin : N → ℕ × N
  pub end : N → N
  pub query : N → ℕ × ℕ
  pub export : N → ℕ → ℕ × Text

-- `owner` is `arena._derivation`; a derivation is a number, with its `_active` and `source`.
pub record World (N : Type 0) : Type 0 where
  pub native : N
  pub owner : Option ℕ
  pub active : ℕ → Bool
  pub source : ℕ → Option Text

abbrev pub set_at : {A : Type 0} → (ℕ → A) → ℕ → A → ℕ → A
set_at f d a j = if j == d then a else f j

-- One of '0123456789abcdef'.
abbrev pub is_hex : ℕ → Bool
is_hex c = (leb b'0' c && leb c b'9') || (leb b'a' c && leb c b'f')

-- `__init__`, as far as it checks the hash.
abbrev pub checked_hash : Text → Result Text
checked_hash source_sha256 =
    if not (nat_beq (length source_sha256) 64) || not (all is_hex source_sha256)
    then err value_error
    else ok source_sha256

-- `_status`
abbrev pub status_or : {A : Type 0} → ℕ → A → Result A
status_or zero a = ok a
status_or (suc n) a = err (native_status (suc n))

-- The artifact of a block that is over.
abbrev pub from_source : Option Text → Result Text
from_source none = err runtime_error
from_source (some text) = ok text

module _ {N : Type 0} (kernel : Kernel N) where
  abbrev pub began : ℕ → World N → ℕ × N → Result (Unit {0}) × World N
  began d w (zero, n) =
      (ok tt, record w { native = n; owner = some d; active = set_at w.active d true })
  began d w (suc status, n) = (err (native_status (suc status)), record w { native = kernel.end n })

  abbrev pub enter_free : ℕ → Option ℕ → World N → Result (Unit {0}) × World N
  enter_free d (some other) w = (err runtime_error, w)
  enter_free d none w = began d w (kernel.begin w.native)

  -- `__enter__`
  unfoldable pub enter : ℕ → World N → Result (Unit {0}) × World N
  enter d w = enter_free d w.owner w

  abbrev pub exported : N → ℕ → Result Text
  exported n size = let (status, text) = kernel.export n size in status_or status text

  -- Status 6 says that no buffer was given.
  abbrev pub after_query : N → ℕ × ℕ → Result Text
  after_query n (status, size) =
      let rest = exported n size in
      if nat_beq status 6 || nat_beq status 0 then rest else err (native_status status)

  -- `export_sympy`
  unfoldable pub export_sympy : ℕ → World N → Result Text
  export_sympy d w =
      if w.active d then after_query w.native (kernel.query w.native) else from_source (w.source d)

  -- The `finally` of `__exit__`.
  abbrev pub ended : ℕ → World N → World N
  ended d w = record w {
    native = kernel.end w.native;
    owner = none;
    active = set_at w.active d false;
  }

  abbrev pub keep_source : ℕ → World N → Result Text → Result (Unit {0}) × World N
  keep_source d w (err x) = (err x, ended d w)
  keep_source d w (ok text) = (ok tt, ended d (record w { source = set_at w.source d (some text) }))

  -- `__exit__`, for what the block gave; the block's exception is raised again.
  unfoldable pub exit : ℕ → Result (Unit {0}) → World N → Result (Unit {0}) × World N
  unfolding export_sympy
  exit d (err x) w = (err x, ended d w)
  exit d (ok u) w = keep_source d w (export_sympy d w)

  -- `with derivation: block`
  abbrev pub entered :
      ℕ
      → (World N → Result (Unit {0}) × World N)
      → Result (Unit {0}) × World N
      → Result (Unit {0}) × World N
  entered d block (err x, w) = (err x, w)
  entered d block (ok u, w) = let (r, v) = block w in exit d r v

  abbrev pub with_block :
      ℕ → (World N → Result (Unit {0}) × World N) → World N → Result (Unit {0}) × World N
  with_block d block w = entered d block (enter d w)
