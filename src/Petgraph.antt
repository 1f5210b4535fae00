-- ===== src/Petgraph.antt =====
-- src/petgraph.rs and src/petgraph/edge_ref.rs: the graph traits for `HistoryGraph`. An iterator is
-- run to its end; `none` is a panic of one of the calls of `expect`.
pub mod Expecting
use relrc.Prelude.{Option, none, some, List, [], ◌∷◌, ◌++◌, map}
use mathlib.Core.Option
use relrc.SlotMap.{SlotMaps, SecondaryMaps}
use relrc.Object.{InnerEdgeData}
use relrc.World.{World}
use relrc.History
use relrc.History.{HistoryGraph, EdgeId, all_node_ids, get_edge, incoming_edges, outgoing_edges}

-- The two directions of the crate petgraph
pub data Direction : Type 0 where
  outgoing incoming : Direction

-- The values of an iterator that may panic at each of them.
abbrev pub collect : {A : Type 0} → List (Option A) → Option (List A)
collect [] = some []
collect (x ∷ xs) = Option.bind x (λ a. Option.map (λ rest. a ∷ rest) (collect xs))

abbrev pub flat_map : {A B : Type 0} → (A → List B) → List A → List B
flat_map f [] = []
flat_map f (x ∷ xs) = f x ++ flat_map f xs

-- `EdgeRef`: the reference to the graph is shared.
pub record EdgeRef {S : SlotMaps} (T : SecondaryMaps S) : Type 0 where
  pub id : EdgeId S
  pub history : HistoryGraph T

module _ {S : SlotMaps} {T : SecondaryMaps S} {N E : Type 0} where
  -- `IntoNeighborsDirected::neighbors_directed`
  unfoldable pub neighbors_directed :
      HistoryGraph T → World S N E → S.Key → Direction → Option (List S.Key) × World S N E
  unfolding outgoing_edges incoming_edges History.source
  neighbors_directed g w node_id Direction.outgoing =
      let (edges, w') = outgoing_edges g w node_id in (some (map (λ e. e.target) edges), w')
  neighbors_directed g w node_id Direction.incoming =
      (collect (map (History.source g w) (incoming_edges g w node_id)), w)

  -- `IntoNeighbors::neighbors`
  unfoldable pub neighbors :
      HistoryGraph T → World S N E → S.Key → Option (List S.Key) × World S N E
  unfolding neighbors_directed
  neighbors g w n = neighbors_directed g w n Direction.outgoing

  -- `IntoEdgeReferences::edge_references`
  unfoldable pub edge_references : HistoryGraph T → World S N E → List (EdgeRef T)
  unfolding incoming_edges
  edge_references g w =
      flat_map
        (λ node_id.
          map (λ edge_id. record { id = edge_id; history = g }) (incoming_edges g w node_id))
        (all_node_ids g)

  -- `IntoEdgesDirected::edges_directed`
  unfoldable pub edges_directed :
      HistoryGraph T → World S N E → S.Key → Direction → List (EdgeRef T) × World S N E
  unfolding outgoing_edges incoming_edges
  edges_directed g w node_id Direction.outgoing =
      let (edges, w') = outgoing_edges g w node_id in
      (map (λ edge_id. record { id = edge_id; history = g }) edges, w')
  edges_directed g w node_id Direction.incoming =
      (map (λ edge_id. record { id = edge_id; history = g }) (incoming_edges g w node_id), w)

  -- `IntoEdges::edges`
  unfoldable pub edges : HistoryGraph T → World S N E → S.Key → List (EdgeRef T) × World S N E
  unfolding outgoing_edges
  edges g w node_id =
      let (ids, w') = outgoing_edges g w node_id in
      (map (λ edge_id. record { id = edge_id; history = g }) ids, w')

  -- `EdgeRef::edge_data`
  unfoldable pub edge_data : EdgeRef T → World S N E → Option (InnerEdgeData E)
  unfolding get_edge
  edge_data e w = get_edge e.history w e.id

  -- `EdgeRef::source`
  unfoldable pub source : EdgeRef T → World S N E → Option S.Key
  unfolding History.source
  source e w = History.source e.history w e.id

  -- `EdgeRef::target`
  unfoldable pub target : EdgeRef T → World S N E → Option S.Key
  unfolding History.target
  target e w = History.target e.history w e.id

  -- `EdgeRef::weight`
  unfoldable pub weight : EdgeRef T → World S N E → Option E
  unfolding edge_data
  weight e w = Option.map (λ d. d.value) (edge_data e w)

module _ {S : SlotMaps} {T : SecondaryMaps S} where
  -- `IntoNodeIdentifiers::node_identifiers`
  unfoldable node_identifiers : HistoryGraph T → List S.Key
  node_identifiers g = all_node_ids g

  -- `Visitable::visit_map`: the set of the nodes visited, as the list of its elements
  unfoldable visit_map : HistoryGraph T → List S.Key
  visit_map g = []

  -- `Visitable::reset_map`
  unfoldable reset_map : HistoryGraph T → List S.Key → List S.Key
  reset_map g visited = []
