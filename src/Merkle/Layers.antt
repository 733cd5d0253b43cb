-- ===== src/Merkle/Layers.antt =====
-- The layers of a tree: each is made from the one below it, and the loop ends at the root.
use pylons.Base.{ℕ, zero, suc, ◌+◌, ◌*◌, ◌≤◌, ◌<◌, List, [], ◌∷◌, ◌≡◌, refl, arith, length}
use pylons.Base.Sort.{sort}
use pylons.Common.{Env}
use pylons.Merkle.{hash_pair, next_layer, layers_above, compute_layers}

module _ (env : Env) where
  -- The order in which two nodes are given does not matter.
  hash_pair_comm : (a b : ℕ) → hash_pair env a b ≡ hash_pair env b a
  unfolding hash_pair
  hash_pair_comm a b = ground arith

  -- Each layer but the last has two nodes or more, the next one hashes them in pairs and has half
  -- as many, rounded up, and the last has at most one node.
  unfoldable pub IsPyramid : List (List ℕ) → Type 0
  IsPyramid [] = ⊥
  IsPyramid (l ∷ []) = length l ≤ 1
  IsPyramid (l ∷ m ∷ ls) =
      (1 < length l)
      × (m ≡ next_layer env l)
      × (length l ≤ 2 * length m)
      × (2 * length m ≤ length l + 1)
      × IsPyramid (m ∷ ls)

  length-next_layer_below : (l : List ℕ) → length l ≤ 2 * length (next_layer env l)
  unfolding next_layer
  length-next_layer_below [] = omega arith
  length-next_layer_below (x ∷ []) = omega arith
  length-next_layer_below (x ∷ y ∷ l) = omega (arith, length-next_layer_below l)

  length-next_layer_above : (l : List ℕ) → 2 * length (next_layer env l) ≤ length l + 1
  unfolding next_layer
  length-next_layer_above [] = omega arith
  length-next_layer_above (x ∷ []) = omega arith
  length-next_layer_above (x ∷ y ∷ l) = omega (arith, length-next_layer_above l)

  layers_above-IsPyramid :
      (fuel : ℕ) (l : List ℕ) → length l ≤ fuel → IsPyramid (l ∷ layers_above env fuel l)
  unfolding IsPyramid layers_above
  layers_above-IsPyramid zero l h = omega arith
  layers_above-IsPyramid (suc fuel) [] h = omega arith
  layers_above-IsPyramid (suc fuel) (x ∷ []) h = omega arith
  layers_above-IsPyramid (suc fuel) (x ∷ y ∷ l) h = (
    omega arith,
    refl,
    length-next_layer_below (x ∷ y ∷ l),
    length-next_layer_above (x ∷ y ∷ l),
    layers_above-IsPyramid fuel (next_layer env (x ∷ y ∷ l))
        (omega (arith, length-next_layer_above (x ∷ y ∷ l))),
  )

  -- The number of leaves is fuel enough for `compute_layers`: the layers go on until one node is
  -- left, each made from the one below it and half as long.
  pub compute_layers-IsPyramid : (elements : List ℕ) → IsPyramid (compute_layers env elements)
  unfolding compute_layers
  compute_layers-IsPyramid elements =
      layers_above-IsPyramid (length (sort (λ h. h) elements)) (sort (λ h. h) elements)
        (omega arith)
