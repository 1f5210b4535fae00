-- ===== src/Tests/Cleaning.antt =====
-- `free_node_ids` of src/registry.rs where a node of the registry is dead.
use relrc.Prelude.{ℕ, ◌<◌, ◌≡◌, ◌↔◌, refl, some, length}
use relrc.SlotMap.Reference.{slots, get}
use relrc.Object.{Ptr, Heap, clone, strong_count}
use relrc.World.{share}
use relrc.Registry
use relrc.Registry.{free_node_ids}
use relrc.Registry.Bijection.{Bijective}
use relrc.Registry.Cleaning.{free_node_ids-Bijective}
use relrc.Node.{new, with_parents}
use relrc.Drop.{drop}
use relrc.Tests.{world}
use relrc.Tests.Saving.{full, full-Bijective}

-- The grandchild is gone.
abbrev after : Heap ℕ ℕ
unfolding drop
after = (drop 2 world).heap

free_node_ids-Bijective_example :
    Bijective (free_node_ids full after).1
    × ((i : ℕ) (p : Ptr)
        → (get Ptr (free_node_ids full after).1.nodes i ≡ some p)
          ↔ ((get Ptr full.nodes i ≡ some p) × (0 < strong_count after p)))
    × ((free_node_ids full after).0 ≡ length (slots.iter Ptr (free_node_ids full after).1.nodes))
free_node_ids-Bijective_example = free_node_ids-Bijective full after full-Bijective

two_left : (free_node_ids full after).0 ≡ 2
unfolding after world drop new clone with_parents Registry.new Registry.add_node share free_node_ids
two_left = refl
