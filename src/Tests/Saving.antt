-- ===== src/Tests/Saving.antt =====
-- Runs of src/serialization.rs, and the theorems about it at concrete inputs.
use mathlib.Core.Option
use mathlib.Core.List.{Memᴰ}
use relrc.Prelude.{ℕ, zero, suc, ◌≡◌, refl, Option, none, some, List, [], ◌∷◌, arith, ◌↔◌, All, map}
use relrc.SlotMap.Reference.{slots, Slots, get}
use relrc.SlotMap.Secondary.{secondary}
use relrc.Object.{Ptr, Heap, InnerData, deref}
use relrc.Registry
use relrc.Registry.{Registry}
use relrc.Registry.Bijection.{Bijective, new-Bijective, add_node-Bijective}
use relrc.Node.{new, with_parents}
use relrc.Object.{clone}
use relrc.Serialization.Format.{
  SerializedInnerData, SerializedRegistry, SerializedHistoryGraph, SerializedRelRc,
}
use relrc.Serialization.Graphs
use relrc.Serialization.Pointers
use relrc.Serialization.Graphs.Asserting.{from_serialized_iff}
use relrc.World.{World, share}
use relrc.History.{HistoryGraph}
use relrc.Drop.{parents_of, node_registry, try_register_in}
use relrc.Serialization.Restoring.{deserialize_nodes}
use relrc.Serialization.Restoring.Heaps.{Grows}
use relrc.Serialization.Restoring.Restored.{IsRanked, IsRestored}
use relrc.Serialization.Restoring.Rounds.{deserialize_nodes-restores}
use relrc.Serialization.Saving.{to_serialized, from_serialized}
use relrc.Serialization.Saving.Returning.{HasId, to_serialized_iff}
use relrc.Serialization.Saving.Copying.{IsCopy, from_serialized-to_serialized}
use relrc.Tests.{family, family-IsValid, world}

-- A child before its parent
abbrev saved : Slots (SerializedInnerData ℕ ℕ ℕ)
saved =
    some (record { value = 20; incoming = (1, 7) ∷ [] })
    ∷ some (record { value = 10; incoming = [] })
    ∷ []

abbrev saved_rank : ℕ → ℕ
saved_rank zero = 1
saved_rank (suc _) = 0

saved-IsRanked : IsRanked (get (SerializedInnerData ℕ ℕ ℕ) saved) saved_rank
saved-IsRanked zero v e =
    let same : v ≡ record { value = 20; incoming = (1, 7) ∷ [] } = cc in
    rw same ((record { value = 10; incoming = [] }, refl, omega arith), tt)
saved-IsRanked (suc zero) v e =
    let same : v ≡ record { value = 10; incoming = [] } = cc in rw same tt
saved-IsRanked (suc (suc i)) v e = cc

deserialize_nodes-restores_example :
    (a : Slots Ptr) × (g : Heap ℕ ℕ) × (deserialize_nodes secondary saved [] ≡ some (a, g))
    × ((i : ℕ) (v : SerializedInnerData ℕ ℕ ℕ)
        → get (SerializedInnerData ℕ ℕ ℕ) saved i ≡ some v
        → (p : Ptr) × (get Ptr a i ≡ some p))
    × ((i : ℕ) (p : Ptr)
        → get Ptr a i ≡ some p
        → IsRestored (get (SerializedInnerData ℕ ℕ ℕ) saved) (get Ptr a) g i p)
    × ((i k : ℕ) (p : Ptr) → get Ptr a i ≡ some p → get Ptr a k ≡ some p → i ≡ k)
    × Grows [] g
deserialize_nodes-restores_example =
    deserialize_nodes-restores secondary saved [] saved_rank saved-IsRanked

-- The family in a registry
abbrev pub full : Registry slots
full = (Registry.add_node (Registry.add_node (Registry.add_node (Registry.new slots) 0).1 1).1 2).1

pub full-Bijective : Bijective full
full-Bijective =
    let first = add_node-Bijective (Registry.new slots) 0 (new-Bijective slots) in
    add_node-Bijective _ 2 (add_node-Bijective _ 1 first)

abbrev pub full_saved : SerializedRegistry slots ℕ ℕ
full_saved = record {
  nodes =
      some (record { value = 10; incoming = [] })
      ∷ some (record { value = 20; incoming = (0, 7) ∷ [] })
      ∷ some (record { value = 30; incoming = (1, 8) ∷ [] })
      ∷ [];
}

from_serialized-to_serialized_example :
    (s : Registry slots) × (a : Slots Ptr) × (g : Heap ℕ ℕ) × (from_serialized secondary full_saved
        family
      ≡ some (s, a, g))
    × IsCopy full family s (get Ptr a) g
unfolding Registry.new Registry.add_node new clone with_parents to_serialized Option.bind
from_serialized-to_serialized_example =
    from_serialized-to_serialized full family family-IsValid.counts full-Bijective full_saved refl
      secondary

-- The grandchild alone is registered.
abbrev youngest : Registry slots
youngest = (Registry.add_node (Registry.new slots) 2).1

to_serialized_iff_example :
    ((ser : SerializedRegistry slots ℕ ℕ) × (to_serialized youngest family ≡ some ser)) ↔ (
      (i : ℕ) (p : Ptr)
      → get Ptr youngest.nodes i ≡ some p
      → (inner : InnerData ℕ ℕ) × (deref family p ≡ some inner)
        × All (HasId youngest) inner.incoming)
to_serialized_iff_example = to_serialized_iff youngest family

youngest_panics : to_serialized youngest family ≡ none
unfolding Registry.new Registry.add_node new clone with_parents to_serialized Option.bind
youngest_panics = refl

-- The family as a graph of its youngest
abbrev pub one_node : SerializedHistoryGraph slots ℕ ℕ
one_node = record { nodes = 2 ∷ []; registry = full_saved }

pub full-IsRanked : IsRanked (get (SerializedInnerData ℕ ℕ ℕ) full_saved.nodes) (λ i. i)
full-IsRanked zero v e = let same : v ≡ record { value = 10; incoming = [] } = cc in rw same tt
full-IsRanked (suc zero) v e =
    let same : v ≡ record { value = 20; incoming = (0, 7) ∷ [] } = cc in
    rw same ((record { value = 10; incoming = [] }, refl, omega arith), tt)
full-IsRanked (suc (suc zero)) v e =
    let same : v ≡ record { value = 30; incoming = (1, 8) ∷ [] } = cc in
    rw same ((record { value = 20; incoming = (0, 7) ∷ [] }, refl, omega arith), tt)
full-IsRanked (suc (suc (suc i))) v e = cc

from_serialized_iff_example :
    ((out : HistoryGraph secondary × World slots ℕ ℕ) × (Graphs.from_serialized secondary one_node
          world
        ≡ some out))
    ↔ ((k : ℕ)
        → Memᴰ k one_node.nodes
        → (v : SerializedInnerData ℕ ℕ ℕ) × (get (SerializedInnerData ℕ ℕ ℕ) full_saved.nodes k
            ≡ some v))
from_serialized_iff_example = from_serialized_iff secondary one_node world (λ i. i) full-IsRanked

abbrev serialised_part : SerializedRelRc slots ℕ ℕ × World slots ℕ ℕ → SerializedRelRc slots ℕ ℕ
serialised_part (ser, w) = ser

-- The grandchild, saved with its ancestors
family_saved :
    Option.map serialised_part (Pointers.to_serialized secondary 2 0 world)
    ≡ some (record {
      id = 2;
      ancestors_graph = record { nodes = 0 ∷ 1 ∷ 2 ∷ []; registry = full_saved };
    })
unfolding Registry.new Registry.add_node new clone with_parents Option.bind share
    Pointers.to_serialized
family_saved = refl

-- What a program has of the node that it read: its value and parents, and its registry.
abbrev seen : Option (Ptr × World slots ℕ ℕ) → Option (ℕ × List Ptr × Option Ptr × Option ℕ)
unfolding node_registry try_register_in Registry.add_node share Registry.new
seen none = none
seen (some (p, w)) = elim (deref w.heap p) [
  | none ↦ none
  | some inner ↦
      let (rp, w') = share (Registry.new slots) w in
      some
        (inner.value, parents_of (some inner), (node_registry p w).0, (try_register_in p rp w').0)
]

-- Read again: the value and the parent are there, but the node is in a registry that is gone, and
-- no other takes it.
family_read :
    seen (
      Pointers.from_serialized secondary
        (record {
          id = 2;
          ancestors_graph = record { nodes = 0 ∷ 1 ∷ 2 ∷ []; registry = full_saved };
        })
        (record { heap = []; registries = [] }))
    ≡ some (30, 1 ∷ [], none, none)
unfolding Registry.new Registry.add_node new clone with_parents Option.bind share
    Pointers.from_serialized seen
family_read = refl

-- Node 2 has two edges from node 0 and one from node 1, all registered.
abbrev twice : World slots ℕ ℕ
unfolding Registry.new Registry.add_node new clone with_parents share
twice =
    let h : Heap ℕ ℕ = (new 20 (clone 0 (new 10 []).1)).1 in
    (share full
      (record { heap = (with_parents 30 ((0, 5) ∷ (0, 6) ∷ (1, 7) ∷ []) h).1; registries = [] })).1

-- It is saved without node 1, so that reading it panics.
twice_panics :
    Option.bind
      (Graphs.to_serialized {T = secondary}
        (record { nodes = none ∷ none ∷ some 2 ∷ []; registry = 0 })
        twice)
      (λ ser. Graphs.from_serialized secondary ser (record { heap = []; registries = [] }))
    ≡ none
unfolding twice Registry.new Registry.add_node new clone with_parents Option.bind share
    Graphs.to_serialized Graphs.from_serialized
twice_panics = refl

twice_saved :
    Option.map
      (λ s. map (λ e. e.0) (slots.iter _ s.registry.nodes))
      (Graphs.to_serialized {T = secondary}
        (record { nodes = none ∷ none ∷ some 2 ∷ []; registry = 0 })
        twice)
    ≡ some (0 ∷ 2 ∷ [])
unfolding twice Registry.new Registry.add_node new clone with_parents Option.bind share
    Graphs.to_serialized Graphs.from_serialized
twice_saved = refl
