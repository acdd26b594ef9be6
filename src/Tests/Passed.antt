-- ===== src/Tests/Passed.antt =====
-- The theorem on lists of shards at three of them.
use fortsym.Base.{◌≡◌, [], ◌∷◌, ok, arith}
use fortsym.Triage.{parse_shards, shard_argument}
use fortsym.Triage.Passing.{parse_shards-shard_argument}

parse_shards-shard_argument_example :
    parse_shards (shard_argument (0 ∷ 7 ∷ 15 ∷ [])) ≡ ok (0 ∷ 7 ∷ 15 ∷ [])
parse_shards-shard_argument_example =
    parse_shards-shard_argument 0 (7 ∷ 15 ∷ []) (omega arith, (omega arith, tt))
      (omega arith, (omega arith, (omega arith, tt)))
