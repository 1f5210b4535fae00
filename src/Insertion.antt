-- ===== src/Insertion.antt =====
-- src/history.rs: `insert_node` and `insert_ancestors`, which make a graph own more nodes, and the
-- constructors, which are loops over `insert_node`. `none` is a panic of `expect`.
pub mod Fitting
pub mod Returning
pub mod Adding
pub mod Holding
pub mod Loading
pub mod Closing
use relrc.Prelude.{ℕ, zero, suc, true, false, Option, none, some, List, [], ◌∷◌}
use mathlib.Core.Option
use relrc.SlotMap.{SlotMaps, SecondaryMaps}
use relrc.Object.{Ptr, deref, clone}
use relrc.Registry
use relrc.World.{World, share}
use relrc.Drop.{try_register_in, drop, parents_of}
use relrc.History.{HistoryGraph, get_node_id, contains}

-- What a method on `&mut self` returns: a value, the graph and the world.
abbrev pub Outcome : {S : SlotMaps} → SecondaryMaps S → Type 0 → Type 0 → Type 0 → Type 0
Outcome {S} T N E A = A × HistoryGraph T × World S N E

-- `self.nodes.insert(id, node)`
abbrev pub put_node :
    {S : SlotMaps} {T : SecondaryMaps S} → HistoryGraph T → S.Key → Ptr → HistoryGraph T
put_node {T} g id node = record g { nodes = T.insert Ptr g.nodes id node }

module _ {S : SlotMaps} {T : SecondaryMaps S} {N E : Type 0} where
  -- The end of `insert_node`: the handle moves into the map, or is dropped where registering failed.
  finish : HistoryGraph T → Ptr → Option S.Key × World S N E → Outcome T N E (Option S.Key)
  unfolding drop
  finish g node (none, w) = (none, g, drop node w)
  finish g node (some id, w) = (some id, put_node g id node, w)

  known_or : HistoryGraph T → Ptr → World S N E → Option S.Key → Outcome T N E (Option S.Key)
  unfolding finish try_register_in drop
  known_or g node w (some id) = (some id, g, drop node w)
  known_or g node w none = finish g node (try_register_in node g.registry w)

  -- `insert_node` takes the handle that it is given.
  unfoldable pub insert_node : Ptr → HistoryGraph T → World S N E → Outcome T N E (Option S.Key)
  unfolding get_node_id known_or
  insert_node node g w = known_or g node w (get_node_id g w node)

  -- The loop over the parents in `insert_ancestors`; `insert` is the recursive call.
  unfoldable pub insert_parents :
      (Ptr → HistoryGraph T → World S N E → Option (Outcome T N E S.Key))
      → List Ptr
      → HistoryGraph T
      → World S N E
      → Option (HistoryGraph T × World S N E)
  unfolding contains clone
  insert_parents insert [] g w = some (g, w)
  insert_parents insert (p ∷ ps) g w = elim (contains g w p) [
    | true ↦ insert_parents insert ps g w
    | false ↦
        Option.bind (insert p g (record w { heap = clone p w.heap }))
          λ (_, g', w'). insert_parents insert ps g' w'
  ]

  -- `insert_node(node.clone()).expect(..)`, and the end of `insert_ancestors`, where `node` goes.
  pub insert_self : Ptr → HistoryGraph T → World S N E → Option (Outcome T N E S.Key)
  unfolding insert_node clone drop
  insert_self node g w =
      let (id, g', w') = insert_node node g (record w { heap = clone node w.heap }) in
      Option.map (λ i. (i, g', drop node w')) id

  -- `insert_ancestors`: parents were allocated before, so the depth `node + 1` is enough.
  unfoldable pub insert_depth :
      ℕ → Ptr → HistoryGraph T → World S N E → Option (Outcome T N E S.Key)
  unfolding insert_parents insert_self
  insert_depth zero node g w = none
  insert_depth (suc depth) node g w =
      Option.bind (insert_parents (insert_depth depth) (parents_of (deref w.heap node)) g w)
        λ (g', w'). insert_self node g' w'

  unfoldable pub insert_ancestors :
      Ptr → HistoryGraph T → World S N E → Option (Outcome T N E S.Key)
  unfolding insert_depth
  insert_ancestors node g w = insert_depth (suc node) node g w

  -- The loop of `HistoryGraph::new`.
  unfoldable pub insert_all : List Ptr → HistoryGraph T → World S N E → HistoryGraph T × World S N E
  unfolding insert_node
  insert_all [] g w = (g, w)
  insert_all (p ∷ ps) g w = let (_, g', w') = insert_node p g w in insert_all ps g' w'

  -- `HistoryGraph::with_registry`
  abbrev pub with_registry : Ptr → World S N E → HistoryGraph T × World S N E
  with_registry registry w = (record { nodes = T.new Ptr; registry = registry }, w)

  -- `HistoryGraph::new` with a strong reference to a registry
  unfoldable pub new : List Ptr → Ptr → World S N E → HistoryGraph T × World S N E
  unfolding insert_all
  new nodes registry w = insert_all nodes (record { nodes = T.new Ptr; registry = registry }) w

  -- `HistoryGraph::from_nodes`
  unfoldable pub from_nodes : List Ptr → World S N E → HistoryGraph T × World S N E
  unfolding new Registry.new share
  from_nodes nodes w = let (registry, w') = share (Registry.new S) w in new nodes registry w'
