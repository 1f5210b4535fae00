-- ===== src/Tests/Outgoing.antt =====
-- `outgoing_edges` of src/history.rs on the family of README.md.
use mathlib.Core.Option
use mathlib.Core.List.{Memᴰ}
use relrc.Prelude.{ℕ, zero, suc, ◌<◌, ◌≡◌, ◌↔◌, refl, some, [], ◌∷◌, arith, subst}
use relrc.SlotMap.Reference.{slots, get}
use relrc.SlotMap.Secondary.{secondary}
use relrc.Object.{Ptr, clone, strong_count}
use relrc.Registry
use relrc.Registry.{Registry}
use relrc.Node.{new, with_parents}
use relrc.World.{World, share}
use relrc.History.{HistoryGraph, get_node, outgoing_edges, source}
use relrc.History.Outgoing.{outgoing_edges-source}
use relrc.Tests.{family, family-IsValid}
use relrc.Tests.Saving.{full, full-Bijective}

-- Memory with the family and a registry that lists it
abbrev all_listed : World slots ℕ ℕ
unfolding share family
all_listed = (share full (record { heap = family; registries = [] })).1

-- The graph of the root and the child
abbrev elders : HistoryGraph secondary
elders = record { nodes = some 0 ∷ some 1 ∷ []; registry = 0 }

elders_known : (i : ℕ) (p : Ptr) → get_node elders i ≡ some p → get Ptr full.nodes i ≡ some p
unfolding Registry.new Registry.add_node
elders_known zero p at = at
elders_known (suc zero) p at = at
elders_known (suc (suc i)) p at = cc

elders_alive : (i : ℕ) (p : Ptr) → get_node elders i ≡ some p → 0 < strong_count all_listed.heap p
unfolding all_listed share family new clone with_parents
elders_alive zero p at =
    let is : 0 ≡ p = cc in subst (λ q. 0 < strong_count all_listed.heap q) is (omega arith)
elders_alive (suc zero) p at =
    let is : 1 ≡ p = cc in subst (λ q. 0 < strong_count all_listed.heap q) is (omega arith)
elders_alive (suc (suc i)) p at = cc

outgoing_edges-source_example :
    Memᴰ (record { target = 1; index = 0 }) (outgoing_edges elders all_listed 0).0
    ↔ (source elders all_listed (record { target = 1; index = 0 }) ≡ some 0)
unfolding all_listed share family new clone with_parents Registry.new Registry.add_node
outgoing_edges-source_example =
    outgoing_edges-source elders all_listed full refl full-Bijective elders_known
      family-IsValid.links elders_alive 0 (record { target = 1; index = 0 })

root_edges : (outgoing_edges elders all_listed 0).0 ≡ record { target = 1; index = 0 } ∷ []
unfolding all_listed share family new clone with_parents Registry.new Registry.add_node
    outgoing_edges Option.bind
root_edges = refl
