-- ===== src/Tests/Ancestors.antt =====
-- `insert_ancestors` of src/history.rs on the family of README.md.
use mathlib.Core.Option
use relrc.Prelude.{ℕ, ◌≡◌, refl, false, some, [], ◌∷◌, Option}
use relrc.SlotMap.Reference.{slots}
use relrc.SlotMap.Secondary.{secondary}
use relrc.Object.{Ptr, clone}
use relrc.World.{World, share}
use relrc.Registry
use relrc.Registry.{Registry}
use relrc.Node.{new, with_parents}
use relrc.Counts.Reach.{Reaches}
use relrc.History.{HistoryGraph, get_node, contains}
use relrc.Insertion.{insert_node, insert_ancestors}
use relrc.Insertion.Holding.{In, Holds}
use relrc.Insertion.Closing.{Closes}
use relrc.Insertion.Closing.Ancestors.{insert_ancestors-Closes}
use relrc.Tests.{world, world-IsTracked, family-IsValid}
use relrc.Tests.Graphs.{empty_graph, world-Fits}

empty-Holds : Holds (2 ∷ 1 ∷ 0 ∷ []) [] empty_graph world
unfolding new clone with_parents Registry.new share
empty-Holds = record {
  counts = family-IsValid.counts;
  tracked = world-IsTracked;
  graph = record { registry = Registry.new slots; present = refl; listed = λ id p there. cc };
  fits = world-Fits;
  owned = λ id p there. cc;
}

insert_ancestors-Closes_example :
    (id : ℕ) × (g : HistoryGraph secondary) × (w : World slots ℕ ℕ) × (insert_ancestors 2
        empty_graph world
      ≡ some (id, g, w))
    × (get_node g id ≡ some 2)
    × ((q : Ptr) → Reaches world.heap 2 q → In g q)
    × Closes (1 ∷ 0 ∷ []) empty_graph world (g, w)
insert_ancestors-Closes_example =
    insert_ancestors-Closes (1 ∷ 0 ∷ []) [] 2 empty_graph world empty-Holds
      (λ q r (id, there) edge. cc)

-- With the child in the graph, and not the root, inserting the grandchild does not insert the root.
abbrev with_child : Option ℕ × HistoryGraph secondary × World slots ℕ ℕ
unfolding insert_node new clone with_parents Registry.new share
with_child = insert_node 1 empty_graph world

root_missing :
    Option.map (λ out. contains out.1 out.2 0) (insert_ancestors 2 with_child.1 with_child.2)
    ≡ some false
unfolding new clone with_parents Registry.new share insert_ancestors insert_node contains
    Option.bind
root_missing = refl
