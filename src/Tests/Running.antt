-- ===== src/Tests/Running.antt =====
-- Programs over src/node.rs that run, and the theorems about them at concrete inputs.
use relrc.Prelude.{ℕ, ◌<◌, ◌≤◌, ◌≡◌, ◌↔◌, [], ◌∷◌, arith}
use relrc.SlotMap.Reference.{slots}
use relrc.Object.{strong_count, clone}
use relrc.World.{share}
use relrc.Registry
use relrc.Registry.{Registry, get_id, add_node, free_node_ids}
use relrc.Node.{new, with_parents}
use relrc.Drop.{drop}
use relrc.Counts.{IsCounted}
use relrc.Counts.Update.{IsCounted-count}
use relrc.Counts.Reach.{Held}
use relrc.Counts.Frame.{alive-drop}
use relrc.Program.{State, Reach, begin, extend, discard}
use relrc.Program.Later.{made}
use relrc.Program.Running.{Reach-alive, Reach-made, Reach-IsValid}
use relrc.Valid.{IsValid}
use relrc.Program.Bounding.{handed_out, Reach-strong_count}
use relrc.Detached.Detaching.{edge_total}
use relrc.Prelude.{length, ◌+◌}
use relrc.Tests.{family, family-IsValid, world}

abbrev owning : State slots ℕ ℕ
unfolding new clone with_parents Registry.new share
owning = record { roots = 2 ∷ 1 ∷ 0 ∷ []; world = world }

abbrev after_drop : State slots ℕ ℕ
unfolding new clone with_parents Registry.new share
after_drop = record { roots = 2 ∷ 0 ∷ []; world = drop 1 world }

dropping : Reach owning after_drop
unfolding new clone with_parents Registry.new share
dropping = extend begin (discard 1 (2 ∷ 0 ∷ []) (λ p. omega arith))

Reach-alive_example :
    (0 < strong_count after_drop.world.heap 1) ↔ Held (2 ∷ 0 ∷ []) after_drop.world.heap 1
unfolding new clone with_parents Registry.new share
Reach-alive_example = Reach-alive 1 dropping family-IsValid

Reach-made_example : (0 < strong_count family 1) × (made (drop 1 world).heap 1 ≡ made family 1)
unfolding new clone with_parents Registry.new share drop
Reach-made_example = Reach-made 1 dropping family-IsValid (omega arith) (omega arith)

Reach-IsValid_example : IsValid (2 ∷ 0 ∷ []) (drop 1 world).heap
unfolding new clone with_parents Registry.new share
Reach-IsValid_example = Reach-IsValid dropping family-IsValid

child_first : IsCounted (1 ∷ 2 ∷ 0 ∷ []) world.heap
unfolding new clone with_parents Registry.new share
child_first = IsCounted-count (λ p. omega arith) family-IsValid.counts

alive-drop_example : (0 < strong_count (drop 1 world).heap 1) ↔ Held (2 ∷ 0 ∷ []) world.heap 1
unfolding new clone with_parents Registry.new share
alive-drop_example = alive-drop 1 world child_first 1

Reach-strong_count_example :
    (strong_count after_drop.world.heap 0 ≤ handed_out dropping + strong_count family 0)
    × (strong_count after_drop.world.heap 0
        ≤ length after_drop.roots + edge_total after_drop.world.heap)
unfolding new clone with_parents Registry.new share
Reach-strong_count_example = Reach-strong_count dropping 0 family-IsValid
