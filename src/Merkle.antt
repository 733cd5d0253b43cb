-- ===== src/Merkle.antt =====
-- transfer/merkle_tree.go, and `computeMerkleTreeWith`, `computeMerkleTreeWithout` and
-- `MerkleTreeWidth` of transfer/channel.go. Layer 0 holds the leaves; the loop over the layers
-- takes the number of leaves as fuel, of which it uses one round for each layer above.
pub mod Sorting
pub mod Layers
pub mod RoundTrip
pub mod Order
pub mod Proof
use pylons.Base.{
  ℕ, zero, suc, ◌+◌, ◌-◌, ◌*◌, ◌/◌, ◌%◌, List, [], ◌∷◌, ◌++◌, Option, none, some, Bool, true, false,
  ◌==◌, ltb, if◌then◌else◌, length, get_elem?, be_bytes,
}
use pylons.Base.Outcome.{Outcome, ok, panic, ◌>>=◌}
use pylons.Base.Sort.{sort}
use pylons.Common.{Env}
use pylons.State.{MerkleTreeState}
use pylons.Event.{Reason}

-- MerkleTreeState.init, GetEmptyMerkleTree
unfoldable pub get_empty_merkle_tree : MerkleTreeState
get_empty_merkle_tree = record { layers = [] ∷ (0 ∷ []) ∷ [] }

-- MerkleRoot
unfoldable pub merkle_root : List (List ℕ) → ℕ
merkle_root [] = 0
merkle_root ([] ∷ []) = 0
merkle_root ((x ∷ xs) ∷ []) = x
merkle_root (l ∷ m ∷ ls) = merkle_root (m ∷ ls)

-- The search for a hash in a layer, from the front.
unfoldable pub contains : List ℕ → ℕ → Bool
contains [] h = false
contains (x ∷ xs) h = let rest = contains xs h in if x == h then true else rest

-- `append(leaves[0:i], leaves[i+1:]...)` for the first `i` with `leaves[i] == h`
unfoldable pub remove_first : List ℕ → ℕ → List ℕ
remove_first [] h = []
remove_first (x ∷ xs) h = if x == h then xs else x ∷ remove_first xs h

-- MerkleTreeWidth
unfoldable pub merkle_tree_width : MerkleTreeState → ℕ
merkle_tree_width t = elim t.layers [ [] ↦ 0 | leaves ∷ ls ↦ length leaves ]

module _ (env : Env) where
  -- HashPair
  unfoldable pub hash_pair : ℕ → ℕ → ℕ
  hash_pair first second =
      if first == 0
      then second
      else if second == 0
      then first
      else if ltb second first
      then env.digest (be_bytes 32 second ++ be_bytes 32 first)
      else env.digest (be_bytes 32 first ++ be_bytes 32 second)

  -- The inner loop of computeLayers.
  unfoldable pub next_layer : List ℕ → List ℕ
  next_layer [] = []
  next_layer (x ∷ []) = hash_pair x 0 ∷ []
  next_layer (x ∷ y ∷ xs) = hash_pair x y ∷ next_layer xs

  -- The outer loop of computeLayers: the layers above a layer.
  unfoldable pub layers_above : ℕ → List ℕ → List (List ℕ)
  layers_above zero layer = []
  layers_above (suc fuel) [] = []
  layers_above (suc fuel) (x ∷ []) = []
  layers_above (suc fuel) (x ∷ y ∷ xs) =
      let layer = next_layer (x ∷ y ∷ xs) in layer ∷ layers_above fuel layer

  -- computeLayers
  unfoldable pub compute_layers : List ℕ → List (List ℕ)
  unfolding layers_above next_layer hash_pair
  compute_layers elements =
      let leaves = sort (λ h. h) elements in leaves ∷ layers_above (length leaves) leaves

  -- computeMerkleTreeWith; `ok none` is the nil of a lock hash that is already a leaf.
  unfoldable pub compute_merkle_tree_with :
      MerkleTreeState → ℕ → Outcome Reason (Option MerkleTreeState)
  compute_merkle_tree_with t lock_hash = elim t.layers [
    | [] ↦ panic
    | leaves ∷ _ ↦
        if contains leaves lock_hash
        then ok none
        else ok (some (record { layers = compute_layers (leaves ++ lock_hash ∷ []) }))
  ]

  -- The tree over the leaves that are left.
  unfoldable pub rebuild : List ℕ → MerkleTreeState
  rebuild [] = get_empty_merkle_tree
  rebuild (x ∷ xs) = record { layers = compute_layers (x ∷ xs) }

  -- computeMerkleTreeWithout; for an unknown lock hash the result has no layers.
  unfoldable pub compute_merkle_tree_without : MerkleTreeState → ℕ → Outcome Reason MerkleTreeState
  unfolding rebuild
  compute_merkle_tree_without t lock_hash = elim t.layers [
    | [] ↦ panic
    | leaves ∷ _ ↦
        if contains leaves lock_hash
        then ok (rebuild (remove_first leaves lock_hash))
        else ok (record { layers = [] })
  ]

  -- validateProof
  unfoldable pub validate_proof : List ℕ → ℕ → ℕ → Bool
  unfolding hash_pair
  validate_proof [] root leaf = leaf == root
  validate_proof (p ∷ ps) root leaf = validate_proof ps root (hash_pair leaf p)

-- The first index of an element.
unfoldable pub index_of : List ℕ → ℕ → Option ℕ
index_of [] h = none
index_of (x ∷ xs) h =
    let rest = index_of xs h in
    if x == h then some 0 else elim rest [ none ↦ none | some i ↦ some (suc i) ]

-- The neighbour of an index.
abbrev pub pair_of : ℕ → ℕ
pair_of idx = if idx % 2 == 0 then idx + 1 else idx - 1

-- The loop of computeMerkleProofFor from layer `i` on.
unfoldable pub proof_from : ℕ → ℕ → List (List ℕ) → Outcome Reason (List ℕ)
proof_from i idx [] = ok []
proof_from i idx (layer ∷ ls) =
    let rest = proof_from (i + 1) (idx / 2) ls in
    if ltb i (length layer)
    then elim (get_elem? layer (pair_of idx)) [ none ↦ panic | some h ↦ rest >>= λ hs. ok (h ∷ hs) ]
    else rest

-- computeMerkleProofFor. The index of an unknown element is -1, so its neighbour is -2, a panic at
-- a first layer that is not empty; otherwise the next round has the index -1 / 2, which is 0.
unfoldable pub compute_merkle_proof_for : List (List ℕ) → ℕ → Outcome Reason (List ℕ)
unfolding proof_from index_of
compute_merkle_proof_for [] element = panic
compute_merkle_proof_for (leaves ∷ ls) element = elim (index_of leaves element) [
  | none ↦ if ltb 0 (length leaves) then panic else proof_from 1 0 ls
  | some idx ↦ proof_from 0 idx (leaves ∷ ls)
]
