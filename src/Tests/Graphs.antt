-- ===== src/Tests/Graphs.antt =====
-- Runs of `HistoryGraph` (src/history.rs) on the family of README.md, and the theorems about it.
use mathlib.Core.Option
use relrc.Prelude.{ℕ, ◌⊎◌, zero, suc, ◌<◌, ◌≡◌, refl, inl, some, [], ◌∷◌, arith, All}
use relrc.SlotMap.Reference.{slots}
use relrc.SlotMap.Secondary.{secondary}
use relrc.Object.{Ptr, clone}
use relrc.World.{World, share}
use relrc.Registry
use relrc.Node.{new, with_parents}
use relrc.Tracking.{IsTracked}
use relrc.Counts.{sources_at}
use relrc.History.{HistoryGraph, get_node, get_node_id, parents, children}
use relrc.Insertion.{from_nodes, insert_node, insert_ancestors}
use relrc.Insertion.Fitting.{Fits, field_at}
use relrc.Insertion.Returning.{insert_ancestors-returns}
use relrc.Insertion.Adding.{IsGraph, insert_node-adds}
use relrc.Drop.{n_outgoing, try_register_in}
use relrc.Petgraph.{Direction, neighbors_directed, edge_references}
use relrc.Petgraph.Expecting.{Answers, neighbors_directed-parents, edge_references-Answers}
use relrc.Tests.{world, world-IsTracked}

-- `HistoryGraph::default()`, with the registry of `world`
abbrev pub empty_graph : HistoryGraph secondary
empty_graph = record { nodes = []; registry = 0 }

-- The family in a graph
abbrev family_graph : HistoryGraph secondary
family_graph = record { nodes = some 0 ∷ some 1 ∷ some 2 ∷ []; registry = 0 }

abbrev id_and_graph :
    {A : Type 0} → A × HistoryGraph secondary × World slots ℕ ℕ → A × HistoryGraph secondary
id_and_graph (id, g, w) = (id, g)

-- src/history.rs, test_history_graph: all three nodes are in the graph.
inserted : Option.map id_and_graph (insert_ancestors 2 empty_graph world) ≡ some (2, family_graph)
unfolding new clone with_parents Registry.new share insert_ancestors Option.bind
inserted = refl

fields : (p q : Ptr) → field_at world.heap p ≡ some q → q ≡ 0
unfolding new clone with_parents Registry.new share
fields zero q at = cc
fields (suc zero) q at = cc
fields (suc (suc zero)) q at = cc
fields (suc (suc (suc p))) q at = cc

olders : (p : Ptr) → All (λ q. q < p) (sources_at world.heap p)
unfolding new clone with_parents Registry.new share
olders zero = tt
olders (suc zero) = (omega arith, tt)
olders (suc (suc zero)) = (omega arith, tt)
olders (suc (suc (suc p))) = tt

pub world-Fits : Fits 0 world
unfolding new clone with_parents Registry.new share
world-Fits = record { present = (Registry.new slots, refl); own = fields; older = olders }

insert_ancestors-returns_example :
    (id : ℕ) × (g : HistoryGraph secondary) × (w : World slots ℕ ℕ) × (insert_ancestors 2
        empty_graph world
      ≡ some (id, g, w))
    × (g.registry ≡ 0)
    × Fits 0 w
insert_ancestors-returns_example = insert_ancestors-returns 2 empty_graph world world-Fits

insert_node-adds_example :
    (id : ℕ) × ((insert_node 2 empty_graph world).0 ≡ some id)
    × (get_node (insert_node 2 empty_graph world).1 id ≡ some 2)
    × (get_node_id (insert_node 2 empty_graph world).1 (insert_node 2 empty_graph world).2 2
        ≡ some id)
    × ((j : ℕ) (p : Ptr)
        → get_node empty_graph j ≡ some p
        → get_node (insert_node 2 empty_graph world).1 j ≡ some p)
    × ((j : ℕ) (p : Ptr)
        → get_node (insert_node 2 empty_graph world).1 j ≡ some p
        → (p ≡ 2) ⊎ (get_node empty_graph j ≡ some p))
    × IsGraph (insert_node 2 empty_graph world).1 (insert_node 2 empty_graph world).2
    × IsTracked (insert_node 2 empty_graph world).2
unfolding new clone with_parents Registry.new share get_node_id Option.bind Registry.get_id
insert_node-adds_example =
    insert_node-adds 2 empty_graph world world-IsTracked
      (record { registry = Registry.new slots; present = refl; listed = λ id p there. cc })
      (omega arith) (inl refl) refl

-- The world that inserting the family leaves.
abbrev graph_world : World slots ℕ ℕ
unfolding new clone with_parents Registry.new share try_register_in
graph_world = (try_register_in 2 0 (try_register_in 1 0 (try_register_in 0 0 world).1).1).1

-- src/history.rs, test_history_graph: the parent of node 2 is node 1, and of node 1 node 0.
family_parents :
    (parents family_graph graph_world 2 ≡ 1 ∷ [])
    × (parents family_graph graph_world 1 ≡ 0 ∷ [])
    × ((children family_graph graph_world 0).0 ≡ 1 ∷ [])
unfolding new clone with_parents Registry.new share try_register_in parents children Option.bind
family_parents = (refl, refl, refl)

neighbors_directed-parents_example :
    neighbors_directed family_graph graph_world 2 Direction.incoming
    ≡ (some (parents family_graph graph_world 2), graph_world)
neighbors_directed-parents_example = neighbors_directed-parents family_graph graph_world 2

edge_references-Answers_example :
    All (Answers graph_world) (edge_references family_graph graph_world)
edge_references-Answers_example = edge_references-Answers family_graph graph_world

-- A graph of nodes without their ancestors, and the number of a node's edges.
some_nodes :
    (get_node (from_nodes {T = secondary} (2 ∷ 0 ∷ []) world).0 1 ≡ some 0)
    × ((n_outgoing 0 world).0 ≡ 1)
unfolding new clone with_parents Registry.new share from_nodes n_outgoing Option.bind
some_nodes = (refl, refl)
