-- ===== src/Route/Paths.antt =====
-- Paths of the channel graph: what the search is to find.
use pylons.Base.{
  ℕ, List, [], ◌∷◌, ◌++◌, Option, none, some, true, false, ◌||◌, ◌==◌, ◌≡◌, refl, ap, subst, arith,
  All, inl, inr, Bool-cases, sym, ◌∙◌,
}
use pylons.Route.{Edges, ShortPathTree, address_contains, slice_equal, is_recorded, neighbours}

-- A path from `start` to `end` along the edges that meets no node twice.
pub data SimplePath (edges : Edges) (start : ℕ) : ℕ → List ℕ → Type 0 where
  here : SimplePath edges start start (start ∷ [])
  step :
      {end : ℕ} {path : List ℕ}
      → SimplePath edges start end path
      → (n : ℕ) → address_contains (neighbours edges end) n ≡ true
      → address_contains path n ≡ false
      → SimplePath edges start n (path ++ n ∷ [])

-- `full` goes on from `walked`, whose last node is `end`, as a simple path to `goal`.
pub data Continues (edges : Edges) (goal : ℕ) : List ℕ → ℕ → List ℕ → Type 0 where
  done : {walked : List ℕ} → Continues edges goal walked goal walked
  on :
      {walked : List ℕ} {end : ℕ} {full : List ℕ}
      → (n : ℕ) → address_contains (neighbours edges end) n ≡ true
      → address_contains walked n ≡ false
      → Continues edges goal (walked ++ n ∷ []) n full
      → Continues edges goal walked end full

pub contains-snoc :
    (path : List ℕ) (x y : ℕ)
    → address_contains (path ++ x ∷ []) y ≡ (address_contains path y || x == y)
unfolding address_contains
contains-snoc [] x y = ground arith
contains-snoc (z ∷ path) x y = ground (arith, contains-snoc path x y)

join :
    (edges : Edges) (start goal end : ℕ) (path full : List ℕ)
    → SimplePath edges start end path
    → Continues edges goal path end full
    → Continues edges goal (start ∷ []) start full
join edges start goal end path full SimplePath.here c = c
join edges start goal end path full (SimplePath.step p n edge new) c =
    join edges start goal _ _ full p (Continues.on n edge new c)

-- A simple path goes on from its first node.
pub SimplePath-Continues :
    (edges : Edges) (start goal : ℕ) (path : List ℕ)
    → SimplePath edges start goal path
    → Continues edges goal (start ∷ []) start path
SimplePath-Continues edges start goal path p = join edges start goal goal path path p Continues.done

-- A path that has met its goal stands there and goes no further.
pub Continues-stops :
    (edges : Edges) (goal end : ℕ) (walked full : List ℕ)
    → address_contains walked goal ≡ true
    → Continues edges goal walked end full
    → (end ≡ goal) × (full ≡ walked)
Continues-stops edges goal end walked full met Continues.done = (refl, refl)
Continues-stops edges goal end walked full met (Continues.on n edge new c) =
    let later =
      Continues-stops edges goal n (walked ++ n ∷ []) full
        (ground (arith, contains-snoc walked n goal)) c in
    absurd (ground (arith, subst (λ m. address_contains walked m ≡ false) later.0 new))

final : List ℕ → Option ℕ → Option ℕ
final [] before = before
final (x ∷ xs) before = final xs (some x)

final-snoc : (path : List ℕ) (n : ℕ) (before : Option ℕ) → final (path ++ n ∷ []) before ≡ some n
unfolding final
final-snoc [] n before = refl
final-snoc (x ∷ path) n before = final-snoc path n (some x)

final-SimplePath :
    (edges : Edges) (start end : ℕ) (path : List ℕ)
    → SimplePath edges start end path
    → final path none ≡ some end
unfolding final
final-SimplePath edges start end path SimplePath.here = refl
final-SimplePath edges start end path (SimplePath.step {path = before} p n edge new) =
    final-snoc before n none

pub slice_equal→≡ : (a b : List ℕ) → slice_equal a b ≡ true → a ≡ b
unfolding slice_equal
slice_equal→≡ [] [] h = refl
slice_equal→≡ [] (y ∷ ys) h = absurd (ground arith)
slice_equal→≡ (x ∷ xs) [] h = absurd (ground arith)
slice_equal→≡ (x ∷ xs) (y ∷ ys) h =
    let tails = slice_equal→≡ xs ys (ground arith) in let heads : x ≡ y = ground arith in cc

pub slice_equal_refl : (a : List ℕ) → slice_equal a a ≡ true
unfolding slice_equal
slice_equal_refl [] = refl
slice_equal_refl (x ∷ xs) = ground (arith, slice_equal_refl xs)

-- The end of every recorded path is the goal, so a walk that is not there yet is not recorded.
pub not_recorded :
    (edges : Edges) (start goal end : ℕ) (sp : ShortPathTree) (walked : List ℕ)
    → All (SimplePath edges start goal) sp
    → SimplePath edges start end walked
    → (end == goal) ≡ false
    → is_recorded sp walked ≡ false
unfolding is_recorded
not_recorded edges start goal end [] walked all p far = refl
not_recorded edges start goal end (v ∷ sp) walked all p far =
    elim (Bool-cases (slice_equal v walked)) [
      | inr differ ↦ ground (arith, differ, not_recorded edges start goal end sp walked all.1 p far)
      | inl same ↦
          let eq = slice_equal→≡ v walked same in
          let a = final-SimplePath edges start goal v all.0 in
          let b = final-SimplePath edges start end walked p in
          let ends : some end ≡ some goal = sym b ∙ (ap (λ q. final q none) (sym eq) ∙ a) in
          absurd (ground (arith, ends))
    ]

pub is_recorded-snoc :
    (sp : ShortPathTree) (path p : List ℕ)
    → is_recorded (sp ++ path ∷ []) p ≡ (is_recorded sp p || slice_equal path p)
unfolding is_recorded
is_recorded-snoc [] path p = ground arith
is_recorded-snoc (v ∷ sp) path p = ground (arith, is_recorded-snoc sp path p)

pub All-snoc {κ} :
    (P : List ℕ → Type κ) (sp : ShortPathTree) (path : List ℕ)
    → All P sp
    → P path
    → All P (sp ++ path ∷ [])
All-snoc P [] path all p = (p, tt)
All-snoc P (v ∷ sp) path all p = (all.0, All-snoc P sp path all.1 p)
