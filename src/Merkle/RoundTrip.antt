-- ===== src/Merkle/RoundTrip.antt =====
-- What a tree promises: it stands for the lock hashes that it was made from, in any order.
use mathlib.Core.List.{Perm, perm_append_singleton}
use mathlib.Core.List.Perm
use pylons.Base.{
  ℕ, ◌<◌, List, [], ◌∷◌, ◌++◌, ◌≡◌, refl, sym, ap, ◌∙◌, arith, true, false, some, none,
  if◌then◌else◌, length, Bool-cases, inl, inr,
}
use pylons.Base.Outcome.{ok}
use pylons.Base.Sort.{sort, sort-perm}
use pylons.Common.{Env}
use pylons.State.{MerkleTreeState}
use pylons.Merkle.{
  contains, remove_first, layers_above, get_empty_merkle_tree, merkle_tree_width, compute_layers,
  rebuild, compute_merkle_tree_with, compute_merkle_tree_without,
}
use pylons.Merkle.Sorting.{sort_hashes, sort-perm_eq, contains-sort, remove_first-sort, length-sort}

contains_head : (h : ℕ) (hs : List ℕ) → contains (h ∷ hs) h ≡ true
unfolding contains
contains_head h hs = ground arith

remove_first_head : (h : ℕ) (hs : List ℕ) → remove_first (h ∷ hs) h ≡ hs
unfolding remove_first
remove_first_head h hs = ground arith

module _ (env : Env) where
  -- The tree of a list of lock hashes.
  unfoldable pub tree_over : List ℕ → MerkleTreeState
  tree_over hashes = rebuild env (sort_hashes hashes)

  pub tree_over-nil : tree_over [] ≡ get_empty_merkle_tree
  unfolding tree_over rebuild sort
  tree_over-nil = refl

  pub tree_over-perm : {hs ks : List ℕ} → Perm hs ks → tree_over hs ≡ tree_over ks
  unfolding tree_over
  tree_over-perm p = ap (rebuild env) (sort-perm_eq p)

  sort-sort : (hs : List ℕ) → sort_hashes (sort_hashes hs) ≡ sort_hashes hs
  sort-sort hs = sort-perm_eq (sort-perm (λ h. h) hs)

  layers-rebuild :
      (l : List ℕ) → (ls : List (List ℕ)) × ((rebuild env l).layers ≡ sort_hashes l ∷ ls)
  unfolding rebuild get_empty_merkle_tree sort compute_layers
  layers-rebuild [] = (_, refl)
  layers-rebuild (x ∷ l) = (_, refl)

  pub layers-tree_over :
      (hs : List ℕ) → (ls : List (List ℕ)) × ((tree_over hs).layers ≡ sort_hashes hs ∷ ls)
  unfolding tree_over
  layers-tree_over hs =
      let (ls, e) = layers-rebuild (sort_hashes hs) in (ls, e ∙ ap (λ l. l ∷ ls) (sort-sort hs))

  pub merkle_tree_width-tree_over : (hs : List ℕ) → merkle_tree_width (tree_over hs) ≡ length hs
  unfolding merkle_tree_width
  merkle_tree_width-tree_over hs =
      let (ls, e) = layers-tree_over hs in rw (e, merkle_tree_width) (length-sort hs)

  compute_layers-perm :
      {xs ys : List ℕ} → Perm xs ys → compute_layers env xs ≡ compute_layers env ys
  unfolding compute_layers
  compute_layers-perm p = ap (λ l. l ∷ layers_above env (length l) l) (sort-perm_eq p)

  rebuild_lem : (l : List ℕ) → 0 < length l → (rebuild env l).layers ≡ compute_layers env l
  unfolding rebuild
  rebuild_lem [] h = absurd (omega arith)
  rebuild_lem (x ∷ l) h = refl

  layers-rebuild_insert :
      (h : ℕ) (hs : List ℕ)
      → compute_layers env (sort_hashes hs ++ h ∷ []) ≡ (tree_over (h ∷ hs)).layers
  unfolding tree_over
  layers-rebuild_insert h hs =
      compute_layers-perm (
        Perm.trans (perm_append_singleton h (sort_hashes hs)) (
          Perm.trans (Perm.cons h (sort-perm (λ k. k) hs))
            (Perm.symm (sort-perm (λ k. k) (h ∷ hs)))))
      ∙ sym (rebuild_lem (sort_hashes (h ∷ hs)) (omega (arith, length-sort (h ∷ hs))))

  -- Adding a lock hash to the tree of some lock hashes gives the tree of one more, unless it is
  -- there already: then there is no new tree.
  pub compute_merkle_tree_with-tree_over :
      (hs : List ℕ) (h : ℕ)
      → compute_merkle_tree_with env (tree_over hs) h
        ≡ ok (if contains hs h then none else some (tree_over (h ∷ hs)))
  unfolding compute_merkle_tree_with
  compute_merkle_tree_with-tree_over hs h =
      let (ls, e) = layers-tree_over hs in
      let made = layers-rebuild_insert h hs in
      elim (Bool-cases (contains hs h)) [
        | inl there ↦ rw (e, compute_merkle_tree_with, contains-sort h hs, there)
        | inr new ↦
            rw (e, compute_merkle_tree_with, contains-sort h hs, new)
              (ap (λ l. ok (some (record { layers = l }))) made)
      ]

  -- Removing a lock hash from the tree of some lock hashes gives the tree of the others; for a
  -- lock hash that is not there the result is a tree without layers.
  pub compute_merkle_tree_without-tree_over :
      (hs : List ℕ) (h : ℕ)
      → compute_merkle_tree_without env (tree_over hs) h
        ≡ ok (if contains hs h then tree_over (remove_first hs h) else record { layers = [] })
  unfolding compute_merkle_tree_without tree_over
  compute_merkle_tree_without-tree_over hs h =
      let (ls, e) = layers-tree_over hs in
      elim (Bool-cases (contains hs h)) [
        | inl there ↦
            rw (e, compute_merkle_tree_without, contains-sort h hs, there)
              (ap (λ l. ok (rebuild env l)) (remove_first-sort h hs there))
        | inr new ↦ rw (e, compute_merkle_tree_without, contains-sort h hs, new)
      ]

  -- A lock hash that is not in the tree of some lock hashes can be added to it, and when it is
  -- removed again the tree is as it was: its layers, its order and its root.
  pub add_then_remove :
      (hs : List ℕ) (h : ℕ)
      → contains hs h ≡ false
      → (t : MerkleTreeState) × (compute_merkle_tree_with env (tree_over hs) h ≡ ok (some t))
        × (compute_merkle_tree_without env t h ≡ ok (tree_over hs))
  add_then_remove hs h new = (
    tree_over (h ∷ hs),
    compute_merkle_tree_with-tree_over hs h ∙ (rw new),
    compute_merkle_tree_without-tree_over (h ∷ hs) h
        ∙ rw (contains_head h hs, remove_first_head h hs),
  )
