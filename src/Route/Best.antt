-- ===== src/Route/Best.antt =====
-- service/route.go: the route of a payment, picked from the paths that the search finds, and the
-- channel with a partner, from transfer/views.go. Which nodes the transport reaches and which DNS
-- nodes the chain knows are parameters.
use mathlib.Core.Option
use pylons.Base.{
  ℕ, List, [], ◌∷◌, Option, none, some, Bool, true, false, not, ◌&&◌, ◌||◌, ◌==◌, ltb,
  if◌then◌else◌, map, length,
}
use pylons.Base.Outcome.{Outcome, ok, err}
use pylons.State.{NettingChannelState}
use pylons.State.SyncMap.{load}
use pylons.StateChange.{RouteState}
use pylons.Channel.Status.{ChannelStatus, get_status, is_opened}
use pylons.Channel.Balance.{get_distributable}
use pylons.Task.{ChannelsMap}
use pylons.Route.{ShortPathTree, address_contains, new_topology, get_pair_path_sorted}

-- The part of TokenNetworkState that is read here, with NetworkGraph's two maps
pub record TokenNetworkState : Type 0 where
  pub nodes : List (ℕ × ℕ)
  pub edges : List ((ℕ × ℕ) × ℕ)
  pub dns_addrs_map : List (ℕ × ℕ)
  pub partner_addresses_to_channels : List (ℕ × ChannelsMap)

-- What the functions report when they have no route
pub data RouteError : Type 0 where
  no_token_network no_dns no_path no_route unreachable no_channel not_available : RouteError

-- FilterChannelsByStatus
unfoldable pub filter_channels_by_status :
    ChannelsMap → (ChannelStatus → Bool) → List NettingChannelState
filter_channels_by_status [] excluded = []
filter_channels_by_status ((_, v) ∷ states) excluded =
    let rest = filter_channels_by_status states excluded in
    if excluded (get_status v) then rest else v ∷ rest

-- `states.Back()`
unfoldable pub back : List NettingChannelState → Option NettingChannelState
back [] = none
back (state ∷ states) = elim (back states) [ none ↦ some state | some last ↦ some last ]

abbrev pub is_unusable : ChannelStatus → Bool
is_unusable ChannelStatus.unusable = true
is_unusable _ = false

-- GetChannelStateByTokenNetworkAndPartner
unfoldable pub get_channel_state_by_token_network_and_partner :
    TokenNetworkState → ℕ → Option NettingChannelState
unfolding filter_channels_by_status back
get_channel_state_by_token_network_and_partner network partner_address =
    elim (load partner_address network.partner_addresses_to_channels) [
      | none ↦ none
      | some states ↦ back (filter_channels_by_status states is_unusable)
    ]

-- checkRouteAvailable
unfoldable pub check_route_available : NettingChannelState → ℕ → Bool
check_route_available channel amount =
    is_opened (get_status channel)
    && not (ltb (get_distributable channel.our_state channel.partner_state) amount)

-- `sp[spLen-2]`, for a path of two nodes or more
unfoldable pub next_hop : List ℕ → Option ℕ
next_hop [] = none
next_hop (a ∷ []) = none
next_hop (a ∷ b ∷ []) = some a
next_hop (a ∷ b ∷ c ∷ path) = next_hop (b ∷ c ∷ path)

-- Whether `sp[0]` is the target
unfoldable pub is_destination : List ℕ → ℕ → Bool
is_destination [] to = false
is_destination (a ∷ path) to = a == to

-- GetAllDns, and GetAllDnsFromChain when it has none
unfoldable pub dns_nodes : TokenNetworkState → List ℕ → List ℕ
dns_nodes network from_chain = elim network.dns_addrs_map [
  | [] ↦ from_chain
  | a ∷ addrs ↦ map (λ e. e.0) (a ∷ addrs)
]

module _ (is_reachable : ℕ → Bool) (network : TokenNetworkState) where
  -- The channel with a node, when it can carry the amount
  unfoldable pub route_over : ℕ → ℕ → Option RouteState
  unfolding get_channel_state_by_token_network_and_partner check_route_available
  route_over amount hop = elim (get_channel_state_by_token_network_and_partner network hop) [
    | none ↦ none
    | some channel ↦
        if check_route_available channel amount
        then some (record { node_address = hop; channel_id = channel.identifier })
        else none
  ]

  -- One round of the loop of GetBestRoutesByDFS
  unfoldable pub route_along : List ℕ → ℕ → ℕ → List ℕ → Option RouteState
  unfolding route_over next_hop is_destination address_contains
  route_along dns to amount sp = elim (next_hop sp) [
    | none ↦ none
    | some hop ↦
        let route = route_over amount hop in
        if is_destination sp to && ((hop == to || address_contains dns hop) && is_reachable hop)
        then route
        else none
  ]

  -- The loop of GetBestRoutesByDFS, up to the first path that can be used
  unfoldable pub first_route : List ℕ → ℕ → ℕ → ShortPathTree → Option RouteState
  unfolding route_along
  first_route dns to amount [] = none
  first_route dns to amount (sp ∷ spt) =
      let rest = first_route dns to amount spt in
      elim (route_along dns to amount sp) [ none ↦ rest | some route ↦ some route ]

  -- GetSpecifiedRoute
  unfoldable pub get_specified_route : ℕ → ℕ → Outcome RouteError (List RouteState)
  unfolding get_channel_state_by_token_network_and_partner check_route_available
  get_specified_route media amount =
      let found = get_channel_state_by_token_network_and_partner network media in
      if is_reachable media
      then (elim found [
        | none ↦ err RouteError.no_channel
        | some channel ↦
            if check_route_available channel amount
            then ok (record { node_address = media; channel_id = channel.identifier } ∷ [])
            else err RouteError.not_available
      ])
      else err RouteError.unreachable

-- GetBestRoutesByDFS once the search has found its paths
unfoldable pub pick_route :
    (ℕ → Bool)
    → TokenNetworkState
    → List ℕ
    → ℕ
    → ℕ
    → ShortPathTree
    → Outcome RouteError (List RouteState)
unfolding first_route
pick_route is_reachable network dns to amount [] = err RouteError.no_path
pick_route is_reachable network dns to amount (sp ∷ spt) =
    elim (first_route is_reachable network dns to amount (sp ∷ spt)) [
      | none ↦ err RouteError.no_route
      | some route ↦ ok (route ∷ [])
    ]

-- GetBestRoutesByDFS; it is `none` only when the fuel of the search runs out.
unfoldable pub get_best_routes_by_dfs :
    (List ℕ → List ℕ → List ℕ)
    → (ℕ → Bool)
    → List ℕ
    → Option TokenNetworkState
    → ℕ
    → ℕ
    → ℕ
    → List ℕ
    → Option (Outcome RouteError (List RouteState))
unfolding dns_nodes pick_route get_pair_path_sorted new_topology
get_best_routes_by_dfs range is_reachable from_chain none from to amount bad_addrs =
    some (err RouteError.no_token_network)
get_best_routes_by_dfs range is_reachable from_chain (some network) from to amount bad_addrs =
    let dns = dns_nodes network from_chain in
    let topology = new_topology network.nodes network.edges bad_addrs in
    let found = get_pair_path_sorted range topology from to in
    if length dns == 0
    then some (err RouteError.no_dns)
    else Option.map (λ r. pick_route is_reachable network dns to amount r.1) found
