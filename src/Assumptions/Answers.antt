-- ===== src/Assumptions/Answers.antt =====
-- The answers of the predicates of `Matrix` that are kept.
use fortsym.Base.{
  ℕ, Bool, true, ◌&&◌, Option, none, some, Result, ok, err, ◌==◌, nat_eq, bool_eq, pair_eq,
  if◌then◌else◌,
}
use fortsym.Base.Dict.{lookup, insert}
use fortsym.Handles.{Native, Store, Action, lift, ◌>>=◌, ◌>>◌, finally, close_all, require}
use fortsym.Matrices.{Matrix, matrix_expression, native_operation}
use fortsym.Assumptions.Changes.{
  Query, diagonal, zero_matrix, upper, lower, upper_hessenberg, lower_hessenberg, identity, echelon,
  hermitian, anti_symmetric, symmetric, Kernel, Entry, Session,
}

-- The matrix that stands behind a number.
pub record Objects : Type 0 where
  pub matrix : ℕ → Matrix

-- The number of a predicate's cache, and its option.
abbrev pub slot : Query → ℕ
slot diagonal = 0
slot zero_matrix = 1
slot upper = 2
slot lower = 3
slot upper_hessenberg = 4
slot lower_hessenberg = 5
slot identity = 6
slot echelon = 7
slot hermitian = 8
slot (anti_symmetric b) = 9
slot (symmetric b) = 10

abbrev pub option : Query → Bool
option (anti_symmetric b) = b
option (symmetric b) = b
option q = true

module _ {A : Type 0} (native : Native) (kernel : Kernel A) (objects : Objects) where
  -- A predicate without its cache.
  unfoldable pub uncached : A → ℕ → Query → Action (Option Bool)
  unfolding matrix_expression require close_all
  uncached c i q = matrix_expression native (objects.matrix i) >>= λ p.
      finally (λ s. native_operation ((require p.0 >> lift (kernel.decide c p.0.term q)) s))
        (close_all p.1)

  -- `cached is not None and cached[0] == epoch`
  abbrev pub hit : Option Entry → ℕ → Bool → Option (Option Bool)
  hit none epoch b = none
  hit (some entry) epoch b =
      if entry.epoch == epoch && entry.simplify == b then some entry.answer else none

  abbrev pub keep_answer :
      Session A
      → ℕ
      → Query
      → Result (Option Bool) × Store
      → Result (Option Bool) × (Session A × Store)
  keep_answer s i q (err x, store) = (err x, (s, store))
  keep_answer s i q (ok answer, store) = (
    ok answer,
    (
      record s {
        caches =
            insert (i, slot q) (record { epoch = s.epoch; simplify = option q; answer = answer })
              s.caches;
      },
      store,
    ),
  )

  abbrev pub answer_or :
      Session A
      → Store
      → ℕ
      → Query
      → Option (Option Bool)
      → Result (Option Bool) × (Session A × Store)
  answer_or s store i q (some answer) = (ok answer, (s, store))
  answer_or s store i q none = keep_answer s i q (uncached s.context i q store)

  -- A predicate of the matrix `i`.
  unfoldable pub predicate :
      ℕ → Query → Session A → Store → Result (Option Bool) × (Session A × Store)
  unfolding uncached lookup insert
  predicate i q s store =
      answer_or s store i q (hit (lookup (i, slot q) s.caches) s.epoch (option q))
