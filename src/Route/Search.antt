-- ===== src/Route/Search.antt =====
-- The search for the paths to a node finds them all, and nothing else.
use pylons.Base.{
  ℕ, zero, suc, ◌<◌, List, [], ◌∷◌, ◌++◌, Option, some, Bool, true, false, ◌||◌, ◌==◌, ◌≡◌, refl,
  subst, arith, All, inl, inr, Bool-cases, sym, ◌∙◌, length, ==_refl,
}
use pylons.Base.Sort.{sort, insert, IsSorted, sort-IsSorted, All-sort}
use pylons.Route.{
  Edges, ShortPathTree, Topology, address_contains, is_recorded, slice_equal, neighbours,
  search_neighbours, search_fuel, search_path_dfs_target, get_pair_path, get_pair_path_sorted,
}
use pylons.Route.Paths.{
  SimplePath, Continues, contains-snoc, SimplePath-Continues, Continues-stops, not_recorded,
  is_recorded-snoc, All-snoc, slice_equal_refl,
}
use pylons.Route.Fuel.{unvisited, unvisited-lt, search_fuel-enough}

-- What a search with the result `r` has found: paths only, with those that were there before and
-- all that it was to find.
record Searched (edges : Edges) (start goal : ℕ) (Wanted : List ℕ → Type 0) (sp : ShortPathTree)
    (r : Option ShortPathTree) : Type 0 where
  found : ShortPathTree
  result : r ≡ some found
  sound : All (SimplePath edges start goal) found
  kept : (p : List ℕ) → is_recorded sp p ≡ true → is_recorded found p ≡ true
  all : (p : List ℕ) → Wanted p → is_recorded found p ≡ true

is_recorded-insert :
    (v : List ℕ) (sp : ShortPathTree) (p : List ℕ)
    → is_recorded (insert length v sp) p ≡ (slice_equal v p || is_recorded sp p)
unfolding insert is_recorded
is_recorded-insert v [] p = refl
is_recorded-insert v (w ∷ sp) p = ground (arith, is_recorded-insert v sp p)

is_recorded-sort :
    (sp : ShortPathTree) (p : List ℕ) → is_recorded (sort length sp) p ≡ is_recorded sp p
unfolding sort is_recorded
is_recorded-sort [] p = refl
is_recorded-sort (v ∷ sp) p =
    ground (arith, is_recorded-insert v (sort length sp) p, is_recorded-sort sp p)

module _ (edges : Edges) (start goal : ℕ) where
  -- What goes on from a walk through one of the nodes
  Through : List ℕ → List ℕ → List ℕ → Type 0
  Through walked ns p =
      (n : ℕ) × (address_contains ns n ≡ true)
      × (address_contains walked n ≡ false)
      × Continues edges goal (walked ++ n ∷ []) n p

  skipped :
      (walked ns : List ℕ) (n : ℕ) (sp : ShortPathTree) (next : Option ShortPathTree)
      → (address_contains walked n ≡ true)
      → Searched edges start goal (Through walked ns) sp next
      → Searched edges start goal (Through walked (n ∷ ns)) sp next
  unfolding Through address_contains
  skipped walked ns n sp next met s = record {
    found = s.found;
    result = s.result;
    sound = s.sound;
    kept = s.kept;
    all = λ p. λ (m, there, new, c). elim (Bool-cases (n == m)) [
      | inl same ↦
          let eq : n ≡ m = ground arith in
          absurd (ground (arith, subst (λ k. address_contains walked k ≡ true) eq met))
      | inr other ↦ s.all p (m, ground arith, new, c)
    ];
  }

  skip-loop :
      (visit : ℕ → ShortPathTree → Option ShortPathTree) (walked ns : List ℕ) (n : ℕ)
      (sp : ShortPathTree)
      → address_contains walked n ≡ true
      → search_neighbours visit walked (n ∷ ns) sp ≡ search_neighbours visit walked ns sp
  unfolding search_neighbours
  skip-loop visit walked ns n sp met = rw (search_neighbours, met) refl

  visit-loop :
      (visit : ℕ → ShortPathTree → Option ShortPathTree) (walked ns : List ℕ) (n : ℕ)
      (sp found : ShortPathTree)
      → address_contains walked n ≡ false
      → visit n sp ≡ some found
      → search_neighbours visit walked (n ∷ ns) sp ≡ search_neighbours visit walked ns found
  unfolding search_neighbours
  visit-loop visit walked ns n sp found new e = rw (search_neighbours, new, e) refl

  or_later : (b : Bool) {c : Bool} → c ≡ true → (b || c) ≡ true
  or_later true h = refl
  or_later false h = h

  or_first : {b : Bool} (c : Bool) → b ≡ true → (b || c) ≡ true
  or_first c h = ground arith

  visited :
      (walked ns : List ℕ) (n : ℕ) (sp : ShortPathTree) (r next : Option ShortPathTree)
      (first : Searched edges start goal (Continues edges goal (walked ++ n ∷ []) n) sp r)
      → Searched edges start goal (Through walked ns) first.found next
      → Searched edges start goal (Through walked (n ∷ ns)) sp next
  unfolding Through address_contains
  visited walked ns n sp r next first later = record {
    found = later.found;
    result = later.result;
    sound = later.sound;
    kept = λ p h. later.kept p (first.kept p h);
    all = λ p. λ (m, there, new, c). elim (Bool-cases (n == m)) [
      | inl same ↦
          let eq : m ≡ n = ground arith in
          later.kept p (first.all p (subst (λ k. Continues edges goal (walked ++ k ∷ []) k p) eq c))
      | inr other ↦ later.all p (m, ground arith, new, c)
    ];
  }

  loop :
      (visit : ℕ → ShortPathTree → Option ShortPathTree) (walked ns : List ℕ) (sp : ShortPathTree)
      → ((n : ℕ)
          → address_contains ns n ≡ true
          → address_contains walked n ≡ false
          → (before : ShortPathTree) → All (SimplePath edges start goal) before
          → Searched edges start goal
              (Continues edges goal (walked ++ n ∷ []) n)
              before
              (visit n before))
      → All (SimplePath edges start goal) sp
      → Searched edges start goal (Through walked ns) sp (search_neighbours visit walked ns sp)
  unfolding search_neighbours Through address_contains
  loop visit walked [] sp ih all = record {
    found = sp;
    result = refl;
    sound = all;
    kept = λ p h. h;
    all = λ p. λ (m, there, new, c). absurd (ground (arith, there));
  }
  loop visit walked (n ∷ ns) sp ih all =
      let later =
        λ (m : ℕ) (there : address_contains ns m ≡ true). ih m (or_later (n == m) there) in
      elim (Bool-cases (address_contains walked n)) [
        | inl met ↦
            subst (Searched edges start goal (Through walked (n ∷ ns)) sp)
              (sym (skip-loop visit walked ns n sp met))
              (skipped walked ns n sp (search_neighbours visit walked ns sp) met
                (loop visit walked ns sp later all))
        | inr new ↦
            let first = ih n (or_first (address_contains ns n) (==_refl n)) new sp all in
            subst (Searched edges start goal (Through walked (n ∷ ns)) sp)
              (sym (visit-loop visit walked ns n sp first.found new first.result))
              (visited walked ns n sp (visit n sp) (search_neighbours visit walked ns first.found)
                first (loop visit walked ns first.found later first.sound))
      ]

  arrived :
      (walked : List ℕ) (sp : ShortPathTree)
      → SimplePath edges start goal walked
      → address_contains walked goal ≡ true
      → All (SimplePath edges start goal) sp
      → Searched edges start goal (Continues edges goal walked goal) sp (some (sp ++ walked ∷ []))
  arrived walked sp walk met all = record {
    found = sp ++ walked ∷ [];
    result = refl;
    sound = All-snoc (SimplePath edges start goal) sp walked all walk;
    kept = λ p h. is_recorded-snoc sp walked p ∙ or_first (slice_equal walked p) h;
    all = λ p c.
        let stop = Continues-stops edges goal goal walked p met c in
        subst (λ q. is_recorded (sp ++ walked ∷ []) q ≡ true) (sym stop.1)
          (is_recorded-snoc sp walked walked
            ∙ or_later (is_recorded sp walked) (slice_equal_refl walked));
  }

  goes_on :
      (walked ns : List ℕ) (to : ℕ) (p : List ℕ)
      → ((n : ℕ) → address_contains ns n ≡ address_contains (neighbours edges to) n)
      → (to == goal) ≡ false
      → Continues edges goal walked to p
      → Through walked ns p
  unfolding Through
  goes_on walked ns to p same far Continues.done = absurd (ground (arith, ==_refl goal))
  goes_on walked ns to p same far (Continues.on n edge new c) = (n, same n ∙ edge, new, c)

  -- A search with fuel for all that its walk has not met
  search :
      (range : List ℕ → List ℕ → List ℕ)
      → ((path keys : List ℕ) (n : ℕ)
          → address_contains (range path keys) n ≡ address_contains keys n)
      → (fuel to : ℕ) → (path : List ℕ) → (sp : ShortPathTree)
      → SimplePath edges start to (path ++ to ∷ [])
      → unvisited (path ++ to ∷ []) edges < fuel
      → All (SimplePath edges start goal) sp
      → Searched edges start goal
          (Continues edges goal (path ++ to ∷ []) to)
          sp
          (search_path_dfs_target range edges fuel goal to path sp)
  unfolding search_path_dfs_target
  search range ranges zero to path sp walk enough all = absurd (omega arith)
  search range ranges (suc fuel) to path sp walk enough all =
      let walked = path ++ to ∷ [] in
      let ns = range walked (neighbours edges to) in
      let same = ranges walked (neighbours edges to) in
      elim (Bool-cases (to == goal)) [
        | inl hit ↦
            let eq : to ≡ goal = ground arith in
            let met = contains-snoc path to goal ∙ or_later (address_contains path goal) hit in
            let there =
              arrived walked sp (subst (λ k. SimplePath edges start k walked) eq walk) met all in
            let moved =
              subst
                (λ k.
                  Searched edges start goal (Continues edges goal walked k) sp
                    (some (sp ++ walked ∷ [])))
                (sym eq) there in
            rw hit moved
        | inr far ↦
            let fresh = not_recorded edges start goal to sp walked all walk far in
            let deeper =
              λ (n : ℕ) (there : address_contains ns n ≡ true)
                  (new : address_contains walked n ≡ false) (before : ShortPathTree).
                let edge = sym (same n) ∙ there in
                search range ranges fuel n walked before (SimplePath.step walk n edge new)
                  (omega (arith, enough, unvisited-lt walked to n edges new edge)) in
            let s =
              loop (λ n. search_path_dfs_target range edges fuel goal n walked) walked ns sp deeper
                all in
            let r : Searched edges start goal (Continues edges goal walked to) sp (
                search_neighbours (λ n. search_path_dfs_target range edges fuel goal n walked)
                  walked ns sp) =
              record {
                found = s.found;
                result = s.result;
                sound = s.sound;
                kept = s.kept;
                all = λ p c. s.all p (goes_on walked ns to p same far c);
              } in
            rw (far, fresh) r
      ]

-- Without paths from an earlier search and with a graph that is not empty, GetPairPathSorted does
-- not run out of fuel, whatever the order in which it goes over the neighbours of a node. It
-- returns the paths by their length, a path runs along edges from the target to the node that
-- searches and meets no node twice, and every such path is there.
pub get_pair_path_sorted_lem :
    (range : List ℕ → List ℕ → List ℕ)
    → ((path keys : List ℕ) (n : ℕ)
        → address_contains (range path keys) n ≡ address_contains keys n)
    → (t : Topology) → (from to : ℕ) → t.sp ≡ []
    → (length t.nodes == 0) ≡ false
    → (length t.edges == 0) ≡ false
    → (found : ShortPathTree) × (get_pair_path_sorted range t from to
        ≡ some (record t { sp = found }, found))
      × IsSorted length found
      × All (SimplePath t.edges to from) found
      × ((p : List ℕ) → SimplePath t.edges to from p → is_recorded found p ≡ true)
unfolding get_pair_path_sorted get_pair_path
get_pair_path_sorted_lem range ranges t from to none_yet some_nodes some_edges =
    let s =
      search t.edges to from range ranges (search_fuel t.edges) to [] [] SimplePath.here
        (search_fuel-enough (to ∷ []) t.edges) tt in
    (
      sort length s.found,
      rw (none_yet, some_nodes, some_edges, s.result) refl,
      sort-IsSorted length s.found,
      All-sort length (SimplePath t.edges to from) s.found s.sound,
      λ p path. is_recorded-sort s.found p ∙ s.all p (SimplePath-Continues t.edges to from p path),
    )
