-- ===== src/Tests/Reading.antt =====
-- `HistoryGraph::from_serialized` of src/serialization.rs at concrete inputs.
use mathlib.Core.Option
use mathlib.Core.List.{Memᴰ}
use mathlib.Core.List.Memᴰ
use relrc.Prelude.{ℕ, ◌≡◌, inl, inr, refl, none, some, List, [], ◌∷◌, map}
use relrc.SlotMap.Reference.{slots}
use relrc.SlotMap.Secondary.{secondary}
use relrc.Object.{Ptr, InnerEdgeData, clone}
use relrc.Registry
use relrc.Registry.{Registry}
use relrc.Node.{new, with_parents}
use relrc.World.{World, share}
use relrc.Drop.{try_register_in}
use relrc.History.{HistoryGraph}
use relrc.Serialization.Format.{SerializedInnerData, SerializedHistoryGraph, SerializedRelRc}
use relrc.Serialization.Graphs.{to_serialized, from_serialized}
use relrc.Serialization.Graphs.Opened.{IsReadBack}
use relrc.Serialization.Graphs.Reading.{from_serialized-IsReadBack}
use relrc.Program.Later.{made}
use relrc.Serialization.Pointers
use relrc.Serialization.Pointers.Outliving.{IsStale, from_serialized-IsStale}
use relrc.Tests.{family, family-IsValid, world}
use relrc.Tests.Saving.{full_saved, one_node, full-IsRanked}

one_saved :
    (k : ℕ)
    → Memᴰ k one_node.nodes
    → (v : SerializedInnerData ℕ ℕ ℕ) × (slots.get (SerializedInnerData ℕ ℕ ℕ) full_saved.nodes k
        ≡ some v)
one_saved k there = elim (Memᴰ.cases_cons there) [
  | inl here ↦ rw here (record { value = 30; incoming = (1, 8) ∷ [] }, refl)
  | inr later ↦ absurd (Memᴰ.not-nil later)
]

from_serialized-IsReadBack_example :
    (g : HistoryGraph secondary) × (w' : World slots ℕ ℕ) × (from_serialized secondary one_node
        world
      ≡ some (g, w'))
    × IsReadBack one_node g w'
unfolding world family
from_serialized-IsReadBack_example =
    from_serialized-IsReadBack secondary one_node world _ (λ i. i) family-IsValid.counts
      full-IsRanked one_saved

-- The root of the family, which the graph lacks and its registry lists as 0, is put into another.
two_registries :
    Option.map
      (λ (g, w).
        let (rp, w') = share (Registry.new slots) w in
        let (id, after) = try_register_in 0 rp w' in id)
      (from_serialized secondary one_node (record { heap = []; registries = [] }))
    ≡ some (some 0)
unfolding Registry.new Registry.add_node new clone with_parents Option.bind share from_serialized
    try_register_in
two_registries = refl

-- The family as a graph of its root: the other nodes are listed, and gone.
abbrev root_read : SerializedHistoryGraph slots ℕ ℕ
root_read = record { nodes = 0 ∷ []; registry = full_saved }

root_panics :
    Option.bind
      (from_serialized secondary root_read (record { heap = []; registries = [] }))
      (λ (g, w). to_serialized g w)
    ≡ none
unfolding Registry.new Registry.add_node new clone with_parents Option.bind share from_serialized
    to_serialized
root_panics = refl

-- The grandchild, as a pointer that was saved
abbrev saved_pointer : SerializedRelRc slots ℕ ℕ
saved_pointer = record { id = 2; ancestors_graph = one_node }

from_serialized-IsStale_example :
    (p : Ptr) × (w' : World slots ℕ ℕ) × (Pointers.from_serialized secondary saved_pointer world
      ≡ some (p, w'))
    × ((v : SerializedInnerData ℕ ℕ ℕ) × (slots.get (SerializedInnerData ℕ ℕ ℕ) full_saved.nodes 2
          ≡ some v)
        × (edges : List (InnerEdgeData ℕ)) × (made w'.heap p ≡ some (v.value, edges))
        × (map (λ e. e.value) edges ≡ map (λ e. e.1) v.incoming))
    × IsStale p w'
unfolding world family
from_serialized-IsStale_example =
    from_serialized-IsStale secondary saved_pointer world _ (λ i. i) family-IsValid.counts
      full-IsRanked one_saved (Memᴰ.head refl)
