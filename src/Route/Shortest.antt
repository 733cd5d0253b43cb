-- ===== src/Route/Shortest.antt =====
-- The route that is picked belongs to a shortest path that can be used.
use pylons.Base.{
  ℕ, ◌≤◌, List, [], ◌∷◌, Option, none, some, Bool, true, false, ◌==◌, ◌≡◌, refl, ◌∙◌, arith, All,
  inl, inr, ◌⊎◌, Bool-cases, Option-cases, length, ◌≢◌, subst,
}
use pylons.Base.Outcome.{ok, err}
use pylons.Base.Sort.{IsSorted}
use pylons.StateChange.{RouteState}
use pylons.Route.{ShortPathTree, new_topology, is_recorded, slice_equal, address_contains}
use pylons.Route.Paths.{SimplePath, slice_equal→≡}
use pylons.Route.Search.{get_pair_path_sorted_lem}
use pylons.Route.Best.{
  TokenNetworkState, RouteError, route_along, first_route, pick_route, dns_nodes,
  get_best_routes_by_dfs,
}

-- A path that carries the route, and is no longer than any other path that carries one.
pub record Shortest (IsPath : List ℕ → Type 0) (along : List ℕ → Option RouteState)
    (route : RouteState) : Type 0 where
  pub path : List ℕ
  pub is_path : IsPath path
  pub carries : along path ≡ some route
  pub shortest : (q : List ℕ) → IsPath q → along q ≢ none → length path ≤ length q

All-recorded :
    (a : ℕ) (spt : ShortPathTree) (q : List ℕ)
    → All (λ p. a ≤ length p) spt
    → is_recorded spt q ≡ true
    → a ≤ length q
unfolding is_recorded
All-recorded a [] q all there = absurd (ground arith)
All-recorded a (p ∷ spt) q all there = elim (Bool-cases (slice_equal p q)) [
  | inl same ↦ subst (λ r. a ≤ length r) (slice_equal→≡ p q same) all.0
  | inr other ↦ All-recorded a spt q all.1 (ground arith)
]

module _ (is_reachable : ℕ → Bool) (network : TokenNetworkState) (dns : List ℕ)
    (to amount : ℕ) where
  first_route-none :
      (spt : ShortPathTree) (q : List ℕ)
      → first_route is_reachable network dns to amount spt ≡ none
      → is_recorded spt q ≡ true
      → route_along is_reachable network dns to amount q ≡ none
  unfolding first_route is_recorded
  first_route-none [] q e there = absurd (ground arith)
  first_route-none (p ∷ spt) q e there =
      elim (Option-cases (route_along is_reachable network dns to amount p)) [
        | inr (route, found) ↦ absurd (ground arith)
        | inl fails ↦ elim (Bool-cases (slice_equal p q)) [
          | inl same ↦
              subst (λ r. route_along is_reachable network dns to amount r ≡ none)
                (slice_equal→≡ p q same) fails
          | inr other ↦ first_route-none spt q (ground arith) (ground arith)
        ]
      ]

  first_route-Shortest :
      (IsPath : List ℕ → Type 0) (spt : ShortPathTree) (route : RouteState)
      → IsSorted length spt
      → All IsPath spt
      → ((q : List ℕ)
          → IsPath q
          → route_along is_reachable network dns to amount q ≢ none
          → is_recorded spt q ≡ true)
      → first_route is_reachable network dns to amount spt ≡ some route
      → Shortest IsPath (route_along is_reachable network dns to amount) route
  unfolding first_route is_recorded
  first_route-Shortest IsPath [] route sorted all complete e = absurd (ground arith)
  first_route-Shortest IsPath (p ∷ spt) route sorted all complete e =
      elim (Option-cases (route_along is_reachable network dns to amount p)) [
        | inr (other, found) ↦ record {
          path = p;
          is_path = all.0;
          carries = found ∙ ground arith;
          shortest = λ q is_path works. elim (Bool-cases (slice_equal p q)) [
            | inl same ↦ subst (λ r. length p ≤ length r) (slice_equal→≡ p q same) (omega arith)
            | inr differ ↦
                let there = complete q is_path works in
                All-recorded (length p) spt q sorted.0 (ground arith)
          ];
        }
        | inl fails ↦
            first_route-Shortest IsPath spt route sorted.1 all.1
              (λ q is_path works.
                let there = complete q is_path works in
                elim (Bool-cases (slice_equal p q)) [
                  | inl same ↦ absurd (
                      works (
                        subst (λ r. route_along is_reachable network dns to amount r ≡ none)
                          (slice_equal→≡ p q same) fails))
                  | inr differ ↦ ground arith
                ])
              (ground arith)
      ]

new_topology-fresh :
    (nodes : List (ℕ × ℕ)) (edges : List ((ℕ × ℕ) × ℕ)) (blacklist : List ℕ)
    → (new_topology nodes edges blacklist).sp ≡ []
unfolding new_topology
new_topology-fresh nodes edges blacklist = refl

-- What pick_route makes of the loop's route
pick_route-first :
    (is_reachable : ℕ → Bool) (network : TokenNetworkState) (dns : List ℕ) (to amount : ℕ)
    (spt : ShortPathTree)
    → ((route : RouteState) × (first_route is_reachable network dns to amount spt ≡ some route)
        × (pick_route is_reachable network dns to amount spt ≡ ok (route ∷ [])))
      ⊎ ((first_route is_reachable network dns to amount spt ≡ none)
          × ((e : RouteError) × (pick_route is_reachable network dns to amount spt ≡ err e)))
unfolding pick_route first_route
pick_route-first is_reachable network dns to amount [] = inr (refl, (RouteError.no_path, refl))
pick_route-first is_reachable network dns to amount (sp ∷ spt) =
    elim (Option-cases (first_route is_reachable network dns to amount (sp ∷ spt))) [
      | inl e ↦ inr (e, (RouteError.no_route, rw (pick_route, e) refl))
      | inr (route, e) ↦ inl (route, e, rw (pick_route, e) refl)
    ]

-- With a DNS node and a graph that keeps a node and an edge when the bad addresses are left out,
-- GetBestRoutesByDFS returns, whatever the order in which the search goes over the neighbours. It
-- returns either one route, which a simple path from the target to the sender carries that is no
-- longer than any other that carries a route, or an error, and then no simple path carries one. A
-- path carries a route when its next hop is the target or a DNS node, can be reached, and has an
-- open channel with the amount to spend.
pub get_best_routes_by_dfs_lem :
    (range : List ℕ → List ℕ → List ℕ)
    → ((path keys : List ℕ) (n : ℕ)
        → address_contains (range path keys) n ≡ address_contains keys n)
    → (is_reachable : ℕ → Bool) → (from_chain : List ℕ) → (network : TokenNetworkState)
    → (from to amount : ℕ) → (bad_addrs : List ℕ)
    → (length (dns_nodes network from_chain) == 0) ≡ false
    → (length (new_topology network.nodes network.edges bad_addrs).nodes == 0) ≡ false
    → (length (new_topology network.nodes network.edges bad_addrs).edges == 0) ≡ false
    → let IsPath = SimplePath (new_topology network.nodes network.edges bad_addrs).edges to from in
      let carried = route_along is_reachable network (dns_nodes network from_chain) to amount in
      let run =
        get_best_routes_by_dfs range is_reachable from_chain
          (some network)
          from
          to
          amount
          bad_addrs in
      ((route : RouteState) × (run ≡ some (ok (route ∷ []))) × Shortest IsPath carried route)
      ⊎ ((e : RouteError) × (run ≡ some (err e)) × ((q : List ℕ) → IsPath q → carried q ≡ none))
unfolding get_best_routes_by_dfs
get_best_routes_by_dfs_lem range ranges is_reachable from_chain network from to amount bad_addrs
      some_dns some_nodes some_edges =
    let topology = new_topology network.nodes network.edges bad_addrs in
    let dns = dns_nodes network from_chain in
    let s =
      get_pair_path_sorted_lem range ranges topology from to
        (new_topology-fresh network.nodes network.edges bad_addrs) some_nodes some_edges in
    elim (pick_route-first is_reachable network dns to amount s.0) [
      | inl (route, first, picked) ↦ inl (
        route,
        rw (some_dns, s.1, picked) refl,
        first_route-Shortest is_reachable network dns to amount (SimplePath topology.edges to from)
            s.0 route s.2 s.3 (λ q path works. s.4 q path) first,
      )
      | inr (fails, (e, picked)) ↦ inr (
        e,
        rw (some_dns, s.1, picked) refl,
        λ q path. first_route-none is_reachable network dns to amount s.0 q fails (s.4 q path),
      )
    ]
