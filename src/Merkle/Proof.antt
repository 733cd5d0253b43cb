-- ===== src/Merkle/Proof.antt =====
-- `computeMerkleProofFor` compares the layer's number, and not the neighbour's index, with the
-- length of the layer.
use pylons.Base.{
  ℕ, suc, ◌+◌, ◌*◌, List, [], ◌∷◌, ◌≡◌, refl, arith, some, none, length, get_elem?, ◌≤◌, zero,
}
use pylons.Base.Outcome.{panic}
use pylons.Merkle.{index_of, pair_of, compute_merkle_proof_for}

get_elem?_beyond {ℓ} : {A : Type ℓ} (l : List A) (i : ℕ) → length l ≤ i → get_elem? l i ≡ none
get_elem?_beyond [] i h = refl
get_elem?_beyond (x ∷ l) zero h = absurd (omega arith)
get_elem?_beyond (x ∷ l) (suc i) h = get_elem?_beyond l i (omega arith)

pair_of_even : (k : ℕ) → pair_of (2 * k) ≡ 2 * k + 1
pair_of_even k = ground arith

-- In a tree with an odd number of leaves the proof for the last leaf reads beyond the leaves and
-- panics, whatever the layers above are; so it does in a tree of one leaf.
pub compute_merkle_proof_for_last_odd :
    (leaves : List ℕ) (ls : List (List ℕ)) (element k : ℕ)
    → length leaves ≡ 2 * k + 1
    → index_of leaves element ≡ some (2 * k)
    → compute_merkle_proof_for (leaves ∷ ls) element ≡ panic
unfolding compute_merkle_proof_for
compute_merkle_proof_for_last_odd leaves ls element k n e =
    let beyond = get_elem?_beyond leaves (2 * k + 1) (omega arith) in ground (arith, pair_of_even k)
