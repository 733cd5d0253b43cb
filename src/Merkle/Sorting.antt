-- ===== src/Merkle/Sorting.antt =====
-- The leaves: sorting depends only on which hashes there are, and a search and a removal may be
-- made before or after it.
use mathlib.Core.Logic.{∥∥₁_elim}
use mathlib.Core.List.{Perm, Permᴰ}
use mathlib.Core.List.Perm
use pylons.Base.{
  ℕ, List, [], ◌∷◌, ◌≡◌, refl, ap, ◌∙◌, arith, true, ◌==◌, length, Bool-cases, inl, inr, suc, ◌||◌,
}
use pylons.Base.Sort.{insert, sort}
use pylons.Merkle.{contains, remove_first}

abbrev pub sort_hashes : List ℕ → List ℕ
sort_hashes = sort (λ h. h)

insert_comm :
    (x y : ℕ) (l : List ℕ)
    → insert (λ h. h) x (insert (λ h. h) y l) ≡ insert (λ h. h) y (insert (λ h. h) x l)
unfolding insert
insert_comm x y [] = ground arith
insert_comm x y (z ∷ l) = ground (arith, insert_comm x y l)

sort-permᴰ : {xs ys : List ℕ} → Permᴰ xs ys → sort_hashes xs ≡ sort_hashes ys
unfolding sort
sort-permᴰ Permᴰ.nil = refl
sort-permᴰ (Permᴰ.cons {a = a} {b = b} {l₁ = l} {l₂ = m} e p) = let ih = sort-permᴰ p in cc
sort-permᴰ (Permᴰ.swap {a = a} {b = b} {a' = c} {b' = d} {l = l} e f) =
    let comm = insert_comm a b (sort_hashes l) in cc
sort-permᴰ (Permᴰ.trans p q) = sort-permᴰ p ∙ sort-permᴰ q

-- Two lists of the same hashes are sorted to the same list.
pub sort-perm_eq : {xs ys : List ℕ} → Perm xs ys → sort_hashes xs ≡ sort_hashes ys
sort-perm_eq p = ∥∥₁_elim p (hlevel) sort-permᴰ

contains-insert :
    (x h : ℕ) (l : List ℕ) → contains (insert (λ k. k) x l) h ≡ ((x == h) || contains l h)
unfolding insert contains
contains-insert x h [] = ground arith
contains-insert x h (y ∷ l) = ground (arith, contains-insert x h l)

pub contains-sort : (h : ℕ) (l : List ℕ) → contains (sort_hashes l) h ≡ contains l h
unfolding sort contains
contains-sort h [] = refl
contains-sort h (x ∷ l) = ground (arith, contains-insert x h (sort_hashes l), contains-sort h l)

remove_first-insert : (h : ℕ) (l : List ℕ) → remove_first (insert (λ k. k) h l) h ≡ l
unfolding insert remove_first
remove_first-insert h [] = ground arith
remove_first-insert h (y ∷ l) = ground (arith, remove_first-insert h l)

remove_first-perm : (h : ℕ) (l : List ℕ) → contains l h ≡ true → Perm l (h ∷ remove_first l h)
unfolding contains remove_first
remove_first-perm h [] e = cc
remove_first-perm h (x ∷ l) e = elim (Bool-cases (x == h)) [
  | inl hit ↦ let same : x ≡ h = ground arith in rw (hit, same) Perm.rfl
  | inr miss ↦ rw miss (
      Perm.trans (Perm.cons x (remove_first-perm h l (ground arith)))
        (Perm.swap h x (remove_first l h)))
]

pub remove_first-sort :
    (h : ℕ) (l : List ℕ)
    → contains l h ≡ true
    → remove_first (sort_hashes l) h ≡ sort_hashes (remove_first l h)
unfolding sort
remove_first-sort h l e =
    ap (λ k. remove_first k h) (sort-perm_eq (remove_first-perm h l e))
    ∙ remove_first-insert h (sort_hashes (remove_first l h))

length-insert : (x : ℕ) (l : List ℕ) → length (insert (λ k. k) x l) ≡ suc (length l)
unfolding insert
length-insert x [] = refl
length-insert x (y ∷ l) = ground (arith, length-insert x l)

pub length-sort : (l : List ℕ) → length (sort_hashes l) ≡ length l
unfolding sort
length-sort [] = refl
length-sort (x ∷ l) = omega (arith, length-insert x (sort_hashes l), length-sort l)
