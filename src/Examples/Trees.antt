-- ===== src/Examples/Trees.antt =====
-- Merkle trees and byte strings.
use mathlib.Core.List.{Perm, perm_append_singleton}
use pylons.Base.{ℕ, ◌*◌, [], ◌∷◌, ◌++◌, ◌≡◌, refl, some, none, false, arith, if◌then◌else◌}
use pylons.Base.Outcome.{ok, panic}
use pylons.State.{HashTimeLockState, MerkleTreeState}
use pylons.Merkle.{
  contains, remove_first, compute_layers, compute_merkle_tree_with, compute_merkle_tree_without,
  index_of, compute_merkle_proof_for,
}
use pylons.Merkle.Order.{add_all, none_twice, add_all-perm}
use pylons.Merkle.Layers.{IsPyramid, compute_layers-IsPyramid}
use pylons.Merkle.RoundTrip.{
  tree_over, compute_merkle_tree_with-tree_over, compute_merkle_tree_without-tree_over,
  add_then_remove,
}
use pylons.Merkle.Proof.{compute_merkle_proof_for_last_odd}
use pylons.Channel.Packing.{uint64_to_bytes, bytes_to_uint64, pack_data}
use pylons.Channel.Packing.RoundTrip.{bytes_to_uint64-uint64_to_bytes, pack_data-injective}
use pylons.Examples.{test_env}

compute_layers-IsPyramid_example : IsPyramid test_env (compute_layers test_env (9 ∷ 4 ∷ 6 ∷ []))
compute_layers-IsPyramid_example = compute_layers-IsPyramid test_env (9 ∷ 4 ∷ 6 ∷ [])

swapped : Perm {A = ℕ} (4 ∷ 9 ∷ []) (9 ∷ 4 ∷ [])
swapped = perm_append_singleton 9 (4 ∷ [])

add_all-perm_example :
    (add_all test_env (4 ∷ 9 ∷ []) ≡ add_all test_env (9 ∷ 4 ∷ []))
    × (add_all test_env (4 ∷ 9 ∷ [])
        ≡ ok (if none_twice (4 ∷ 9 ∷ []) then some (tree_over test_env (9 ∷ 4 ∷ [])) else none))
add_all-perm_example = add_all-perm test_env swapped

compute_merkle_tree_with-tree_over_example :
    compute_merkle_tree_with test_env (tree_over test_env (9 ∷ 4 ∷ [])) 6
    ≡ ok (if contains (9 ∷ 4 ∷ []) 6 then none else some (tree_over test_env (6 ∷ 9 ∷ 4 ∷ [])))
compute_merkle_tree_with-tree_over_example =
    compute_merkle_tree_with-tree_over test_env (9 ∷ 4 ∷ []) 6

compute_merkle_tree_without-tree_over_example :
    compute_merkle_tree_without test_env (tree_over test_env (9 ∷ 4 ∷ [])) 9
    ≡ ok (
        if contains (9 ∷ 4 ∷ []) 9
        then tree_over test_env (remove_first (9 ∷ 4 ∷ []) 9)
        else record { layers = [] })
compute_merkle_tree_without-tree_over_example =
    compute_merkle_tree_without-tree_over test_env (9 ∷ 4 ∷ []) 9

new_hash : contains (9 ∷ 4 ∷ []) 6 ≡ false
unfolding contains
new_hash = refl

add_then_remove_example :
    (t : MerkleTreeState) × (compute_merkle_tree_with test_env (tree_over test_env (9 ∷ 4 ∷ [])) 6
      ≡ ok (some t))
    × (compute_merkle_tree_without test_env t 6 ≡ ok (tree_over test_env (9 ∷ 4 ∷ [])))
add_then_remove_example = add_then_remove test_env (9 ∷ 4 ∷ []) 6 new_hash

last_index : index_of (3 ∷ 5 ∷ 8 ∷ []) 8 ≡ some (2 * 1)
unfolding index_of
last_index = refl

compute_merkle_proof_for_last_odd_example :
    compute_merkle_proof_for ((3 ∷ 5 ∷ 8 ∷ []) ∷ (7 ∷ 8 ∷ []) ∷ (9 ∷ []) ∷ []) 8 ≡ panic
compute_merkle_proof_for_last_odd_example =
    compute_merkle_proof_for_last_odd (3 ∷ 5 ∷ 8 ∷ []) ((7 ∷ 8 ∷ []) ∷ (9 ∷ []) ∷ []) 8 1 refl
      last_index

bytes_to_uint64-uint64_to_bytes_example : bytes_to_uint64 (uint64_to_bytes 1000 ++ 7 ∷ []) ≡ 1000
bytes_to_uint64-uint64_to_bytes_example =
    bytes_to_uint64-uint64_to_bytes 1000 (7 ∷ []) (omega arith)

abbrev one_lock : HashTimeLockState
one_lock = record { amount = 40; expiration = 500; secret_hash = 77; encoded = []; lock_hash = 0 }

abbrev same_but_hash : HashTimeLockState
same_but_hash = record one_lock { lock_hash = 5 }

same_data : pack_data one_lock ≡ pack_data same_but_hash
unfolding pack_data
same_data = refl

pack_data-injective_example : (500 ≡ same_but_hash.expiration) × (40 ≡ same_but_hash.amount)
pack_data-injective_example =
    pack_data-injective one_lock same_but_hash (omega arith) (omega arith) (omega arith)
      (omega arith) same_data
