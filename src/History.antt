-- ===== src/History.antt =====
-- src/history.rs: `HistoryGraph`, a map from ids to the handles that it owns, and the registry that
-- gives the ids. A method that may call another on `self` takes the graph and the world.
pub mod Sources
pub mod Outgoing
use relrc.Prelude.{ℕ, zero, suc, Bool, false, Option, none, some, List, [], ◌∷◌, map, if◌then◌else◌}
use mathlib.Core.Option
use relrc.SlotMap.{SlotMaps, SecondaryMaps}
use relrc.Object.{Ptr, InnerData, InnerEdgeData, Edge, deref}
use relrc.World.{World, registry_at}
use relrc.Registry.{get_id, is_some}
use relrc.Node.{incoming, all_outgoing, n_incoming}
use relrc.Drop.{drop, each}

-- `HistoryGraph`: `registry` is a strong reference.
pub record HistoryGraph {S : SlotMaps} (T : SecondaryMaps S) : Type 0 where
  pub nodes : T.SecondaryMap Ptr
  pub registry : Ptr

-- `EdgeId`
pub record EdgeId (S : SlotMaps) : Type 0 where
  pub target : S.Key
  pub index : ℕ

-- `0..n`
abbrev pub range_from : ℕ → ℕ → List ℕ
range_from i zero = []
range_from i (suc n) = i ∷ range_from (suc i) n

abbrev pub filter_some : {A B : Type 0} → (A → Option B) → List A → List B
filter_some f [] = []
filter_some f (x ∷ xs) = elim (f x) [ none ↦ filter_some f xs | some y ↦ y ∷ filter_some f xs ]

abbrev pub keep_if : {A : Type 0} → (A → Bool) → List A → List A
keep_if f [] = []
keep_if f (x ∷ xs) = if f x then x ∷ keep_if f xs else keep_if f xs

n_incoming_of : {N E : Type 0} → Option (InnerData N E) → ℕ
unfolding n_incoming
n_incoming_of none = 0
n_incoming_of (some inner) = n_incoming inner

module _ {S : SlotMaps} {T : SecondaryMaps S} where
  -- `self.nodes.contains_key(id)`
  abbrev pub contains_id : HistoryGraph T → S.Key → Bool
  contains_id g id = is_some (T.get Ptr g.nodes id)

  abbrev pub get_node : HistoryGraph T → S.Key → Option Ptr
  get_node g id = T.get Ptr g.nodes id

  abbrev pub all_node_ids : HistoryGraph T → List S.Key
  all_node_ids g = T.keys Ptr g.nodes

module _ {S : SlotMaps} {T : SecondaryMaps S} {N E : Type 0} where
  -- `self.registry.borrow().get_id(node)`
  abbrev pub registry_id : HistoryGraph T → World S N E → Ptr → Option S.Key
  registry_id g w p = Option.bind (registry_at w g.registry) (λ r. get_id r p)

  unfoldable pub get_node_id : HistoryGraph T → World S N E → Ptr → Option S.Key
  get_node_id g w p =
      Option.bind (registry_id g w p) (λ id. if contains_id g id then some id else none)

  unfoldable pub contains : HistoryGraph T → World S N E → Ptr → Bool
  contains g w p = elim (registry_id g w p) [ none ↦ false | some id ↦ contains_id g id ]

  -- An edge, if its source is in the graph too.
  keep_edge : HistoryGraph T → World S N E → InnerEdgeData E → Option (InnerEdgeData E)
  unfolding contains
  keep_edge g w e = if contains g w e.source then some e else none

  unfoldable pub get_edge : HistoryGraph T → World S N E → EdgeId S → Option (InnerEdgeData E)
  unfolding keep_edge
  get_edge g w e = Option.bind (get_node g e.target) λ node.
      Option.bind (deref w.heap node) λ inner. Option.bind (incoming inner e.index) (keep_edge g w)

  unfoldable pub contains_edge : HistoryGraph T → World S N E → EdgeId S → Bool
  unfolding get_edge
  contains_edge g w e = is_some (get_edge g w e)

  unfoldable pub source : HistoryGraph T → World S N E → EdgeId S → Option S.Key
  unfolding get_edge get_node_id
  source g w e = Option.bind (get_edge g w e) (λ edge. get_node_id g w edge.source)

  unfoldable pub target : HistoryGraph T → World S N E → EdgeId S → Option S.Key
  unfolding contains_edge
  target g w e = if contains_edge g w e then some e.target else none

  unfoldable pub incoming_edges : HistoryGraph T → World S N E → S.Key → List (EdgeId S)
  unfolding contains_edge n_incoming_of
  incoming_edges g w id = keep_if (contains_edge g w) (
      map (λ i. record { target = id; index = i })
        (range_from 0 (n_incoming_of (Option.bind (get_node g id) (deref w.heap)))))

  unfoldable pub parents : HistoryGraph T → World S N E → S.Key → List S.Key
  unfolding incoming_edges source
  parents g w id = filter_some (source g w) (incoming_edges g w id)

  pub edge_id : HistoryGraph T → World S N E → Edge → Option (EdgeId S)
  unfolding get_node_id
  edge_id g w e =
      Option.map (λ id. record { target = id; index = e.index }) (get_node_id g w e.target)

  -- `outgoing_edges`, run to its end: the edges are mapped, and their handles dropped.
  unfoldable pub outgoing_edges :
      HistoryGraph T → World S N E → S.Key → List (EdgeId S) × World S N E
  unfolding all_outgoing edge_id each drop
  outgoing_edges g w id = elim (get_node g id) [
    | none ↦ ([], w)
    | some node ↦
        let (edges, h) = all_outgoing node w.heap in
        let w' = record w { heap = h } in
        (filter_some (edge_id g w') edges, each drop (map (λ e. e.target) edges) w')
  ]

  unfoldable pub children : HistoryGraph T → World S N E → S.Key → List S.Key × World S N E
  unfolding outgoing_edges target
  children g w id = let (edges, w') = outgoing_edges g w id in (filter_some (target g w') edges, w')
