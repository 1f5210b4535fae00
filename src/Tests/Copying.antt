-- ===== src/Tests/Copying.antt =====
-- A graph that is written and read again (src/serialization.rs), at a concrete input.
use mathlib.Core.Option
use relrc.Prelude.{ℕ, zero, suc, ◌≡◌, refl, none, some, [], ◌∷◌, All}
use relrc.SlotMap.Reference.{slots, get}
use relrc.SlotMap.Secondary.{secondary}
use relrc.Object.{Ptr, clone}
use relrc.Registry
use relrc.Registry.{Registry}
use relrc.Node.{new, with_parents}
use relrc.World.{World, share}
use relrc.History.{HistoryGraph, get_node}
use relrc.Valid.{empty-IsValid}
use relrc.Serialization.Format.{SerializedInnerData}
use relrc.Serialization.Graphs.{to_serialized, from_serialized}
use relrc.Serialization.Graphs.Copying.{IsCopied, from_serialized-IsCopied}
use relrc.Tests.{family, family-IsValid}
use relrc.Tests.Saving.{full, full-Bijective, full_saved, one_node}

-- The graph of the grandchild, in a registry that lists the family
abbrev youngest_graph : HistoryGraph secondary
youngest_graph = record { nodes = none ∷ none ∷ some 2 ∷ []; registry = 0 }

abbrev registered : World slots ℕ ℕ
unfolding share family
registered = (share full (record { heap = family; registries = [] })).1

youngest_known :
    (i : ℕ) (p : Ptr) → get_node youngest_graph i ≡ some p → get Ptr full.nodes i ≡ some p
unfolding Registry.new Registry.add_node
youngest_known zero p at = cc
youngest_known (suc zero) p at = cc
youngest_known (suc (suc zero)) p at = at
youngest_known (suc (suc (suc i))) p at = cc

abbrev Node : Type 0
Node = SerializedInnerData ℕ ℕ ℕ

full_closed :
    (i : ℕ) (v : Node)
    → get Node full_saved.nodes i ≡ some v
    → All (λ e. (u : Node) × (get Node full_saved.nodes e.0 ≡ some u)) v.incoming
full_closed zero v e = let same : v ≡ record { value = 10; incoming = [] } = cc in rw same tt
full_closed (suc zero) v e =
    let same : v ≡ record { value = 20; incoming = (0, 7) ∷ [] } = cc in
    rw same ((record { value = 10; incoming = [] }, refl), tt)
full_closed (suc (suc zero)) v e =
    let same : v ≡ record { value = 30; incoming = (1, 8) ∷ [] } = cc in
    rw same ((record { value = 20; incoming = (0, 7) ∷ [] }, refl), tt)
full_closed (suc (suc (suc i))) v e = cc

from_serialized-IsCopied_example :
    (g' : HistoryGraph secondary) × (w' : World slots ℕ ℕ) × (from_serialized secondary one_node
        (record { heap = []; registries = [] })
      ≡ some (g', w'))
    × IsCopied youngest_graph registered full g' w'
unfolding registered share family Registry.new Registry.add_node new clone with_parents
    to_serialized Option.bind
from_serialized-IsCopied_example =
    from_serialized-IsCopied secondary youngest_graph registered full (2 ∷ 1 ∷ 0 ∷ []) one_node
      (record { heap = []; registries = [] }) [] family-IsValid.counts refl full-Bijective
      youngest_known refl full_closed (empty-IsValid ℕ ℕ).counts
