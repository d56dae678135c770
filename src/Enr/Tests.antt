-- ===== src/Enr/Tests.antt =====
-- Concrete records of shards, and the theorems at concrete inputs.
use nwaku.Base.{has, ℕ, ◌+◌, ◌*◌, ◌/◌, ◌%◌, ◌≡◌, refl, ap₂, arith, some, List, [], ◌∷◌}
use nwaku.Enr.Sharding.{
  Endians, ok, RelayShards, shard_bytes, to_indices_list, from_indices_list, to_bit_vector,
  from_bit_vector, contains, read_shards, init, any_above, deduplicate,
}
use nwaku.Enr.Sharding.Indices.{from_indices_list-to_indices_list}
use nwaku.Enr.Sharding.BitVector.{from_bit_vector-to_bit_vector}

abbrev from_two : List ℕ → ℕ
from_two (a ∷ b ∷ more) = a * 256 + b
from_two few = 0

abbrev endians : Endians
endians = record {
  to_bytes_be = λ n. n / 256 ∷ n % 256 ∷ [];
  from_bytes_be = from_two;
  length-to_bytes_be = λ n. refl;
  from-to = λ n lt. omega arith;
  to-from = λ a b la lb.
      let high : (a * 256 + b) / 256 ≡ a = omega arith in
      let low : (a * 256 + b) % 256 ≡ b = omega arith in ap₂ (λ x y. x ∷ y ∷ []) high low;
}

abbrev shards : RelayShards
shards = record { cluster_id = 258; shard_ids = 5 ∷ 1023 ∷ [] }

abbrev bytes : List ℕ
bytes = 1 ∷ 2 ∷ 2 ∷ 0 ∷ 5 ∷ 3 ∷ 255 ∷ []

to_indices_list_run : to_indices_list endians shards ≡ ok bytes
unfolding to_indices_list shard_bytes
to_indices_list_run = refl

from_indices_list_run : from_indices_list endians bytes ≡ ok shards
unfolding from_indices_list read_shards
from_indices_list_run = refl

init_run : init 258 (5 ∷ 1023 ∷ 5 ∷ []) ≡ ok shards
unfolding init any_above deduplicate has
init_run = refl

from_indices_list-to_indices_list_example :
    (buf : List ℕ) × (to_indices_list endians shards ≡ ok buf)
    × (from_indices_list endians buf ≡ ok shards)
from_indices_list-to_indices_list_example =
    from_indices_list-to_indices_list endians shards (omega arith) (omega arith, (omega arith, tt))
      (omega arith)

from_bit_vector-to_bit_vector_example :
    (buf : List ℕ) × (back : RelayShards) × (to_bit_vector endians shards ≡ some buf)
    × (from_bit_vector endians buf ≡ ok back)
    × ((cluster_id shard_id : ℕ)
        → contains back cluster_id shard_id ≡ contains shards cluster_id shard_id)
from_bit_vector-to_bit_vector_example =
    from_bit_vector-to_bit_vector endians shards (omega arith) (omega arith, (omega arith, tt))
