-- ===== src/Route/Fuel.antt =====
-- The ends of the edges that a walk has not met: each step of the search leaves fewer of them.
use pylons.Base.{
  ℕ, suc, ◌+◌, ◌≤◌, ◌<◌, List, [], ◌∷◌, ◌++◌, true, false, ◌==◌, ◌≡◌, arith, if◌then◌else◌, map,
  inl, inr, Bool-cases, length, refl, subst,
}
use pylons.State.SyncMap.{load}
use pylons.Route.{Edges, address_contains, neighbours, search_fuel}
use pylons.Route.Paths.{contains-snoc}

unfoldable missing : List ℕ → List (ℕ × ℕ) → ℕ
missing path [] = 0
missing path ((n, _) ∷ ends) =
    let rest = missing path ends in if address_contains path n then rest else suc rest

unfoldable pub unvisited : List ℕ → Edges → ℕ
unfolding missing
unvisited path [] = 0
unvisited path ((_, ends) ∷ edges) = missing path ends + unvisited path edges

missing-le :
    (path : List ℕ) (x : ℕ) (ends : List (ℕ × ℕ))
    → missing (path ++ x ∷ []) ends ≤ missing path ends
unfolding missing
missing-le path x [] = omega arith
missing-le path x ((n, d) ∷ ends) = ground (arith, missing-le path x ends, contains-snoc path x n)

missing-lt :
    (path : List ℕ) (x : ℕ) (ends : List (ℕ × ℕ))
    → address_contains path x ≡ false
    → address_contains (map (λ end. end.0) ends) x ≡ true
    → missing (path ++ x ∷ []) ends < missing path ends
unfolding missing address_contains
missing-lt path x [] new edge = absurd (ground arith)
missing-lt path x ((n, d) ∷ ends) new edge = elim (Bool-cases (n == x)) [
  | inl same ↦
      let eq : n ≡ x = ground arith in
      let le = missing-le path x ends in
      let snoc = contains-snoc path x x in rw (eq, new, snoc) (ground (arith, le))
  | inr other ↦ ground (arith, missing-lt path x ends new (ground arith), contains-snoc path x n)
]

missing-length : (path : List ℕ) (ends : List (ℕ × ℕ)) → missing path ends ≤ length ends
unfolding missing
missing-length path [] = omega arith
missing-length path ((n, d) ∷ ends) = ground (arith, missing-length path ends)

unvisited-le :
    (path : List ℕ) (x : ℕ) (edges : Edges)
    → unvisited (path ++ x ∷ []) edges ≤ unvisited path edges
unfolding unvisited
unvisited-le path x [] = omega arith
unvisited-le path x ((n, ends) ∷ edges) =
    omega (arith, missing-le path x ends, unvisited-le path x edges)

neighbours-first :
    (n end : ℕ) (ends : List (ℕ × ℕ)) (edges : Edges)
    → (n == end) ≡ true
    → neighbours ((n, ends) ∷ edges) end ≡ map (λ e. e.0) ends
unfolding neighbours load
neighbours-first n end ends edges h = rw (neighbours, h) refl

neighbours-later :
    (n end : ℕ) (ends : List (ℕ × ℕ)) (edges : Edges)
    → (n == end) ≡ false
    → neighbours ((n, ends) ∷ edges) end ≡ neighbours edges end
unfolding neighbours load
neighbours-later n end ends edges h = rw (neighbours, h) refl

-- A step to a node that the walk has not met
pub unvisited-lt :
    (path : List ℕ) (end x : ℕ) (edges : Edges)
    → address_contains path x ≡ false
    → address_contains (neighbours edges end) x ≡ true
    → unvisited (path ++ x ∷ []) edges < unvisited path edges
unfolding unvisited neighbours load address_contains
unvisited-lt path end x [] new edge = absurd (ground arith)
unvisited-lt path end x ((n, ends) ∷ edges) new edge = elim (Bool-cases (n == end)) [
  | inl hit ↦
      let here : address_contains (map (λ e. e.0) ends) x ≡ true =
        subst (λ l. address_contains l x ≡ true) (neighbours-first n end ends edges hit) edge in
      omega (arith, missing-lt path x ends new here, unvisited-le path x edges)
  | inr miss ↦
      let there : address_contains (neighbours edges end) x ≡ true =
        subst (λ l. address_contains l x ≡ true) (neighbours-later n end ends edges miss) edge in
      omega (arith, missing-le path x ends, unvisited-lt path end x edges new there)
]

-- The fuel of the search exceeds what there is to visit.
pub search_fuel-enough : (path : List ℕ) (edges : Edges) → unvisited path edges < search_fuel edges
unfolding unvisited search_fuel
search_fuel-enough path [] = omega arith
search_fuel-enough path ((n, ends) ∷ edges) =
    omega (arith, missing-length path ends, search_fuel-enough path edges)
