-- ===== src/Examples/Routes.antt =====
-- Routes through a graph of four nodes.
use pylons.Channel.Balance.{get_amount_locked}
use pylons.Channel.Balance.{get_balance}
use pylons.Channel.Balance.{get_distributable}
use pylons.Channel.Status.{get_status}
use pylons.Base.Sort.{sort}
use pylons.State.SyncMap.{load}
use pylons.State.SyncMap.{store}
use pylons.Route.{address_contains}
use pylons.Base.{ℕ, List, [], ◌∷◌, some, true, false, none, ◌⊎◌, ◌≡◌, refl, All, length, ◌==◌}
use pylons.Base.Sort.{IsSorted}
use pylons.Route.{ShortPathTree, Topology, new_topology, get_pair_path_sorted, is_recorded}
use pylons.Route.Paths.{SimplePath}
use pylons.Route.Search.{get_pair_path_sorted_lem}
use pylons.Base.Outcome.{ok, err}
use pylons.StateChange.{RouteState}
use pylons.Route.Best.{
  TokenNetworkState, RouteError, route_along, dns_nodes, get_best_routes_by_dfs,
}
use pylons.Route.Shortest.{Shortest, get_best_routes_by_dfs_lem}
use pylons.Examples.{left_channel}

abbrev square_edges : List ((ℕ × ℕ) × ℕ)
square_edges =
    ((4, 2), 1)
    ∷ ((4, 3), 1)
    ∷ ((4, 5), 1)
    ∷ ((5, 1), 1)
    ∷ ((2, 1), 1)
    ∷ ((3, 2), 1)
    ∷ ((2, 3), 1)
    ∷ ((3, 1), 1)
    ∷ []

-- Node 5 is on the blacklist, so the edges to it and from it are left out.
abbrev square : Topology
square = new_topology ((1, 0) ∷ (2, 0) ∷ (3, 0) ∷ (4, 0) ∷ (5, 0) ∷ []) square_edges (5 ∷ [])

square_paths : get_pair_path_sorted (λ path keys. keys) square 1 4 ≡ (
    let sp =
      (4 ∷ 2 ∷ 1 ∷ []) ∷ (4 ∷ 3 ∷ 1 ∷ []) ∷ (4 ∷ 2 ∷ 3 ∷ 1 ∷ []) ∷ (4 ∷ 3 ∷ 2 ∷ 1 ∷ []) ∷ [] in
    some (record square { sp = sp }, sp))
unfolding get_pair_path_sorted new_topology address_contains store load sort
square_paths = refl

square_fresh :
    (square.sp ≡ []) × ((length square.nodes == 0) ≡ false) × ((length square.edges == 0) ≡ false)
unfolding new_topology address_contains store
square_fresh = (refl, refl, refl)

get_pair_path_sorted_lem_example :
    (found : ShortPathTree) × (get_pair_path_sorted (λ path keys. keys) square 1 4
      ≡ some (record square { sp = found }, found))
    × IsSorted length found
    × All (SimplePath square.edges 4 1) found
    × ((p : List ℕ) → SimplePath square.edges 4 1 p → is_recorded found p ≡ true)
get_pair_path_sorted_lem_example =
    get_pair_path_sorted_lem (λ path keys. keys) (λ path keys n. refl) square 1 4 square_fresh.0
      square_fresh.1 square_fresh.2

-- The channel with node 2, a DNS node, is the only one.
abbrev network : TokenNetworkState
network = record {
  nodes = (1, 0) ∷ (2, 0) ∷ (3, 0) ∷ (4, 0) ∷ (5, 0) ∷ [];
  edges = square_edges;
  dns_addrs_map = (2, 1) ∷ [];
  partner_addresses_to_channels = (2, (7, left_channel) ∷ []) ∷ [];
}

square_route :
    get_best_routes_by_dfs (λ path keys. keys) (λ n. true) [] (some network) 1 4 40 (5 ∷ [])
    ≡ some (ok (record { node_address = 2; channel_id = left_channel.identifier } ∷ []))
unfolding get_best_routes_by_dfs new_topology dns_nodes store load sort get_status get_distributable
    get_balance get_amount_locked
square_route = refl

no_capacity :
    get_best_routes_by_dfs (λ path keys. keys) (λ n. true) [] (some network) 1 4 400 (5 ∷ [])
    ≡ some (err RouteError.no_route)
unfolding get_best_routes_by_dfs new_topology dns_nodes store load sort get_status get_distributable
    get_balance get_amount_locked
no_capacity = refl

network_serves :
    ((length (dns_nodes network []) == 0) ≡ false)
    × ((length (new_topology network.nodes network.edges (5 ∷ [])).nodes == 0) ≡ false)
    × ((length (new_topology network.nodes network.edges (5 ∷ [])).edges == 0) ≡ false)
unfolding new_topology dns_nodes address_contains store
network_serves = (refl, refl, refl)

get_best_routes_by_dfs_lem_example :
    let IsPath = SimplePath (new_topology network.nodes network.edges (5 ∷ [])).edges 4 1 in
    let carried = route_along (λ n. true) network (dns_nodes network []) 4 40 in
    let run =
      get_best_routes_by_dfs (λ path keys. keys) (λ n. true) [] (some network) 1 4 40 (5 ∷ []) in
    ((route : RouteState) × (run ≡ some (ok (route ∷ []))) × Shortest IsPath carried route)
    ⊎ ((e : RouteError) × (run ≡ some (err e)) × ((q : List ℕ) → IsPath q → carried q ≡ none))
get_best_routes_by_dfs_lem_example =
    get_best_routes_by_dfs_lem (λ path keys. keys) (λ path keys n. refl) (λ n. true) [] network 1 4
      40 (5 ∷ []) network_serves.0 network_serves.1 network_serves.2
