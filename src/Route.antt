-- ===== src/Route.antt =====
-- route/dfs.go and route/route.go: every path between two nodes of the channel graph, by a
-- depth-first search that starts at the payment's target.
pub mod Paths
pub mod Fuel
pub mod Search
pub mod Best
pub mod Shortest
use mathlib.Core.Option
use pylons.Base.{
  ℕ, zero, suc, ◌+◌, List, [], ◌∷◌, ◌++◌, Option, none, some, Bool, true, false, not, ◌&&◌, ◌||◌,
  ◌==◌, if◌then◌else◌, map, length,
}
use pylons.Base.Sort.{sort}
use pylons.State.SyncMap.{load, store}

-- The outer keys are where the edges start, the inner keys where they end.
abbrev pub Edges : Type 0
Edges = List (ℕ × List (ℕ × ℕ))

-- ShortPathTree: each path runs from the target to the node that searches.
abbrev pub ShortPathTree : Type 0
ShortPathTree = List (List ℕ)

pub record Topology : Type 0 where
  pub nodes : List (ℕ × ℕ)
  pub edges : Edges
  pub sp : ShortPathTree

-- AddressContains
unfoldable pub address_contains : List ℕ → ℕ → Bool
address_contains [] address = false
address_contains (addr ∷ addrs) address = addr == address || address_contains addrs address

-- The nodes that NewTopology keeps
unfoldable pub allowed_nodes : List ℕ → List (ℕ × ℕ) → List (ℕ × ℕ) → List (ℕ × ℕ)
allowed_nodes blacklist [] kept = kept
allowed_nodes blacklist ((addr, value) ∷ nodes) kept =
    allowed_nodes blacklist nodes
      (if address_contains blacklist addr then kept else store addr value kept)

-- The edge from addr1 to addr2, with its inner map made when there is none yet.
unfoldable pub add_edge : ℕ → ℕ → ℕ → Edges → Edges
add_edge addr1 addr2 distance edges =
    store addr1 (store addr2 distance (elim (load addr1 edges) [ none ↦ [] | some ends ↦ ends ]))
      edges

-- The edges that NewTopology keeps
unfoldable pub allowed_edges : List ℕ → List ((ℕ × ℕ) × ℕ) → Edges → Edges
unfolding add_edge
allowed_edges blacklist [] kept = kept
allowed_edges blacklist (((addr1, addr2), distance) ∷ edges) kept = allowed_edges blacklist edges (
    if not (address_contains blacklist addr1) && not (address_contains blacklist addr2)
    then add_edge addr1 addr2 distance kept
    else kept)

-- NewTopology, with an EdgeId as its two addresses
unfoldable pub new_topology : List (ℕ × ℕ) → List ((ℕ × ℕ) × ℕ) → List ℕ → Topology
unfolding allowed_nodes allowed_edges
new_topology nodes edges blacklist = record {
  nodes = allowed_nodes blacklist nodes [];
  edges = allowed_edges blacklist edges [];
  sp = [];
}

-- sliceEqual
unfoldable pub slice_equal : List ℕ → List ℕ → Bool
slice_equal [] [] = true
slice_equal [] (b ∷ others) = false
slice_equal (a ∷ rest) [] = false
slice_equal (a ∷ rest) (b ∷ others) = a == b && slice_equal rest others

-- Whether a path is recorded already
unfoldable pub is_recorded : ShortPathTree → List ℕ → Bool
unfolding slice_equal
is_recorded [] path = false
is_recorded (v ∷ sp) path = slice_equal v path || is_recorded sp path

-- The keys of `edges[to]`; a missing inner map has none.
unfoldable pub neighbours : Edges → ℕ → List ℕ
neighbours edges to = elim (load to edges) [ none ↦ [] | some ends ↦ map (λ end. end.0) ends ]

-- The loop over the neighbours, which skips those that the path has walked already; `visit` is the
-- recursive search.
unfoldable pub search_neighbours :
    (ℕ → ShortPathTree → Option ShortPathTree)
    → List ℕ
    → List ℕ
    → ShortPathTree
    → Option ShortPathTree
search_neighbours visit path [] sp = some sp
search_neighbours visit path (n ∷ ns) sp =
    elim (if address_contains path n then some sp else visit n sp) [
      | none ↦ none
      | some next ↦ search_neighbours visit path ns next
    ]

-- A fuel that the search does not use up: the number of the edges, and one.
unfoldable pub search_fuel : Edges → ℕ
search_fuel [] = 1
search_fuel ((_, ends) ∷ edges) = length ends + search_fuel edges

-- The order of a range over a map is not fixed: `range path keys` is the order in which the search
-- goes over the neighbours when it has come to the end of `path`.
module _ (range : List ℕ → List ℕ → List ℕ) where
  -- searchPathDFSTarget; it is `none` only when the fuel runs out.
  unfoldable pub search_path_dfs_target :
      Edges → ℕ → ℕ → ℕ → List ℕ → ShortPathTree → Option ShortPathTree
  unfolding is_recorded neighbours search_neighbours
  search_path_dfs_target edges zero from to path sp = none
  search_path_dfs_target edges (suc fuel) from to path sp =
      let walked = path ++ to ∷ [] in
      let rest =
        search_neighbours (λ n. search_path_dfs_target edges fuel from n walked) walked
          (range walked (neighbours edges to)) sp in
      if to == from
      then some (sp ++ walked ∷ [])
      else if is_recorded sp walked
      then some sp
      else rest

  -- GetPairPath: the topology with the paths found, and what it returns.
  unfoldable pub get_pair_path : Topology → ℕ → ℕ → Option (Topology × ShortPathTree)
  unfolding search_path_dfs_target search_fuel
  get_pair_path self from to =
      let found = search_path_dfs_target self.edges (search_fuel self.edges) from to [] self.sp in
      if length self.nodes == 0 || length self.edges == 0
      then some (self, [])
      else Option.map (λ sp. (record self { sp = sp }, sp)) found

  -- GetPairPathSorted
  unfoldable pub get_pair_path_sorted : Topology → ℕ → ℕ → Option (Topology × ShortPathTree)
  unfolding get_pair_path
  get_pair_path_sorted self from to =
      Option.map (λ found. let sp = sort length found.0.sp in (record found.0 { sp = sp }, sp))
        (get_pair_path self from to)
