-- ===== src/Merkle/Order.antt =====
-- The order in which lock hashes are added to a tree does not matter.
use mathlib.Core.Logic.{∥∥₁_elim}
use mathlib.Core.List.{Perm, Permᴰ}
use pylons.Base.{
  ℕ, List, [], ◌∷◌, ◌≡◌, refl, sym, ap, ◌∙◌, arith, Bool, true, not, ◌&&◌, Option, some, none,
  if◌then◌else◌, inl, inr, Bool-cases,
}
use pylons.Base.Outcome.{Outcome, ok, ◌>>=◌}
use pylons.Common.{Env}
use pylons.State.{MerkleTreeState}
use pylons.Event.{Reason}
use pylons.Merkle.{contains, get_empty_merkle_tree, compute_merkle_tree_with}
use pylons.Merkle.RoundTrip.{
  tree_over, tree_over-nil, tree_over-perm, compute_merkle_tree_with-tree_over,
}

-- The tree after lock hashes were added one by one to the empty tree, the last of the list first;
-- there is none when a lock hash was there already.
unfoldable pub add_all : Env → List ℕ → Outcome Reason (Option MerkleTreeState)
unfolding compute_merkle_tree_with
add_all env [] = ok (some get_empty_merkle_tree)
add_all env (h ∷ hs) = do
  before ← add_all env hs
  elim before [ none ↦ ok none | some t ↦ compute_merkle_tree_with env t h ]

-- Whether no lock hash comes twice
unfoldable pub none_twice : List ℕ → Bool
none_twice [] = true
none_twice (h ∷ hs) = not (contains hs h) && none_twice hs

add_all-tree_over :
    (env : Env) (hs : List ℕ)
    → add_all env hs ≡ ok (if none_twice hs then some (tree_over env hs) else none)
unfolding add_all none_twice
add_all-tree_over env [] = ap (λ t. ok (some t)) (sym (tree_over-nil env))
add_all-tree_over env (h ∷ hs) =
    let before = add_all-tree_over env hs in
    let added = compute_merkle_tree_with-tree_over env hs h in
    elim (Bool-cases (none_twice hs)) [
      | inl once ↦ ground (arith, before, added)
      | inr twice ↦ ground (arith, before)
    ]

contains-permᴰ : {hs ks : List ℕ} → Permᴰ hs ks → (h : ℕ) → contains hs h ≡ contains ks h
unfolding contains
contains-permᴰ Permᴰ.nil h = refl
contains-permᴰ (Permᴰ.cons {a = a} {b = b} e p) h = ground (arith, contains-permᴰ p h)
contains-permᴰ (Permᴰ.swap {a = a} {b = b} {a' = c} {b' = d} {l = l} e f) h = ground arith
contains-permᴰ (Permᴰ.trans p q) h = contains-permᴰ p h ∙ contains-permᴰ q h

none_twice-permᴰ : {hs ks : List ℕ} → Permᴰ hs ks → none_twice hs ≡ none_twice ks
unfolding none_twice contains
none_twice-permᴰ Permᴰ.nil = refl
none_twice-permᴰ (Permᴰ.cons {a = a} {b = b} e p) =
    ground (arith, contains-permᴰ p a, none_twice-permᴰ p)
none_twice-permᴰ (Permᴰ.swap {a = a} {b = b} {a' = c} {b' = d} {l = l} e f) = ground arith
none_twice-permᴰ (Permᴰ.trans p q) = none_twice-permᴰ p ∙ none_twice-permᴰ q

-- Adding lock hashes one by one to the empty tree never panics. It gives the same for the same lock
-- hashes in any order: no tree when one comes twice, and otherwise one tree, with its layers and its
-- root.
pub add_all-perm :
    (env : Env) {hs ks : List ℕ}
    → Perm hs ks
    → (add_all env hs ≡ add_all env ks)
      × (add_all env hs ≡ ok (if none_twice hs then some (tree_over env ks) else none))
add_all-perm env {hs = hs} {ks = ks} p =
    let once : none_twice hs ≡ none_twice ks = ∥∥₁_elim p (hlevel) none_twice-permᴰ in
    let tree = tree_over-perm env p in
    let a = add_all-tree_over env hs in
    let b = add_all-tree_over env ks in (ground (arith, a, b, once, tree), ground (arith, a, tree))
