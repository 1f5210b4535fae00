-- ===== src/Tests.antt =====
-- Runs at concrete inputs: the family of README.md, a root with a child and a grandchild, and the
-- theorems at inputs that meet their hypotheses.
pub mod Graphs
pub mod Detaching
pub mod Saving
pub mod Protocol
pub mod Building
pub mod Refining
pub mod Resolving
pub mod Edges
pub mod Delivering
pub mod Attaching
pub mod Ancestors
pub mod Running
pub mod Reading
pub mod Copying
pub mod Cleaning
pub mod Outgoing
use relrc.Prelude.{
  ◌⊎◌, inl, ℕ, ◌++◌, ◌<◌, ◌≤◌, ◌≡◌, ◌↔◌, refl, none, some, List, [], ◌∷◌, map, arith, ◌==◌,
  if◌then◌else◌, All, count, get_elem?,
}
use relrc.SlotMap.Reference.{slots}
use relrc.Object.{Ptr, Heap, strong_count, clone}
use relrc.World.{World, share, registry_at}
use mathlib.Core.Option
use relrc.Registry
use relrc.Registry.{Registry, get_id, add_node}
use relrc.Registry.Bijection.{new-Bijective}
use relrc.Node.{new, with_parents, all_outgoing}
use relrc.Drop.{drop, forget, try_register_in, node_registry}
use relrc.Counts.{IsCounted, sources_at}
use relrc.Counts.Update.{IsCounted-count}
use relrc.Counts.Reach.{Reaches, here, up, Held}
use relrc.Counts.Frame.{alive-drop}
use relrc.Links.{starts_at}
use relrc.Links.Raising.{edge_count}
use relrc.Links.Outgoing.{all_outgoing-edges}
use relrc.Ancestors.{Walk, all_ancestors}
use relrc.Ancestors.Stopping.{all_ancestors-ends, all_ancestors_complete, all_ancestors-stops}
use relrc.Program.{State, Reach, begin, extend, discard}
use relrc.Program.Later.{made}
use relrc.Program.Running.{Reach-alive, Reach-made, Reach-IsValid}
use relrc.Tracking.{IsTracked, registry_of}
use relrc.Tracking.Sharing.{none-IsTracked, share-IsTracked}
use relrc.Tracking.Registering.{try_register_in-IsTracked, try_register_in-registers}
use relrc.Tracking.Freeing.{drop-IsTracked}
use relrc.Mpi.Message.{Hashes, Message, request_rel_rc, done, packet, extract_message}
use relrc.Mpi.Transfer.{DetachedInnerData, mpi_send, mpi_recv}
use relrc.Mpi.Transfer.{mpi_recv-mpi_send}
use relrc.Mpi.Delivery.{extract_message_cases}
use relrc.Valid.{IsValid, empty-IsValid, new-IsValid, with_parents-IsValid, clone-IsValid}

-- `let root = RelRc::new(10)`, `let child = RelRc::with_parents(20, [(root.clone(), 7)])`,
-- `let grandchild = RelRc::with_parents(30, [(child.clone(), 8)])`
abbrev one : Heap ℕ ℕ
unfolding new clone
one = clone 0 (new 10 []).1

abbrev two : Heap ℕ ℕ
unfolding new clone with_parents
two = clone 1 (with_parents 20 ((0, 7) ∷ []) one).1

abbrev pub family : Heap ℕ ℕ
unfolding new clone with_parents
family = (with_parents 30 ((1, 8) ∷ []) two).1

pub family-IsValid : IsValid (2 ∷ 1 ∷ 0 ∷ []) family
unfolding new clone with_parents
family-IsValid =
    let first = new-IsValid 10 [] [] (empty-IsValid ℕ ℕ) in
    let second =
      with_parents-IsValid 20 ((0, 7) ∷ []) one (0 ∷ []) (clone-IsValid first 0 (omega arith)) in
    with_parents-IsValid 30 ((1, 8) ∷ []) two (1 ∷ 0 ∷ []) (clone-IsValid second 1 (omega arith))

-- One registry, that is new.
abbrev pub world : World slots ℕ ℕ
unfolding new clone with_parents Registry.new share
world = (share (Registry.new slots) (record { heap = family; registries = [] })).1

-- README.md: with the child's own handle gone the child is still alive, by its grandchild; with the
-- grandchild gone too, only the root is left.
readme_alive :
    (map (strong_count (drop 1 world).heap) (0 ∷ 1 ∷ 2 ∷ []) ≡ 2 ∷ 1 ∷ 1 ∷ [])
    × (map (strong_count (drop 2 (drop 1 world)).heap) (0 ∷ 1 ∷ 2 ∷ []) ≡ 1 ∷ 0 ∷ 0 ∷ [])
unfolding new clone with_parents Registry.new share drop
readme_alive = (refl, refl)

readme_outgoing :
    ((all_outgoing 0 family).0 ≡ record { index = 0; target = 1 } ∷ [])
    × ((all_outgoing 0 (drop 2 (drop 1 world)).heap).0 ≡ [])
unfolding new clone with_parents Registry.new share drop all_outgoing
readme_outgoing = (refl, refl)

all_outgoing-edges_example :
    edge_count 0 1 (all_outgoing 0 family).0
    ≡ (if strong_count family 1 == 0 then 0 else starts_at 0 (get_elem? (sources_at family 1) 0))
unfolding new clone with_parents
all_outgoing-edges_example = all_outgoing-edges 0 family 1 0 family-IsValid.links (omega arith)

all_ancestors-ends_example :
    (out : List Ptr) × (end : Walk) × (all_ancestors family 2 ≡ some (out, end))
    × All (Reaches family 2) out
    × ((q : Ptr) → count q out ≤ 1)
unfolding new clone with_parents
all_ancestors-ends_example = all_ancestors-ends family-IsValid.counts 2 (omega arith)

all_ancestors_complete_example : count 0 (2 ∷ 1 ∷ 0 ∷ []) ≡ 1
unfolding new clone with_parents all_ancestors
all_ancestors_complete_example =
    all_ancestors_complete family-IsValid.counts 2 (omega arith) (2 ∷ 1 ∷ 0 ∷ [])
      (record { seen = 0 ∷ 1 ∷ 2 ∷ []; stack = [] }) refl refl 0
      (up {q = 1} (up {q = 2} here (omega arith)) (omega arith))

-- Two edges from node 0, and then one from node 1.
abbrev parallel : Heap ℕ ℕ
unfolding new clone with_parents
parallel =
    (with_parents 30 ((0, 7) ∷ (0, 8) ∷ (1, 9) ∷ []) (new 20 (clone 0 (clone 0 (new 10 []).1))).1).1

all_ancestors-stops_example :
    (end : Walk) × (all_ancestors parallel 2 ≡ some (2 ∷ 0 ∷ [], end)) × (end.stack ≡ 1 ∷ [])
unfolding new clone with_parents
all_ancestors-stops_example =
    all_ancestors-stops parallel 2 0 (1 ∷ []) (omega arith) (omega arith) refl

pub world-IsTracked : IsTracked world
unfolding new clone with_parents Registry.new share
world-IsTracked = share-IsTracked _ (none-IsTracked family)

abbrev registered : World slots ℕ ℕ
unfolding new clone with_parents Registry.new share try_register_in
registered = (try_register_in 2 0 world).1

try_register_in-IsTracked_example : IsTracked (try_register_in 2 0 world).1
unfolding new clone with_parents Registry.new share
try_register_in-IsTracked_example =
    try_register_in-IsTracked 2 0 world (omega arith) world-IsTracked

registered-IsTracked : IsTracked registered
unfolding new clone with_parents Registry.new share try_register_in
registered-IsTracked = try_register_in-IsTracked_example

drop-IsTracked_example : IsTracked (drop 2 registered)
unfolding new clone with_parents Registry.new share try_register_in
drop-IsTracked_example = drop-IsTracked 2 registered registered-IsTracked

-- src/node.rs, test_cleanup_dead_references: the id is gone with the node.
cleanup :
    (Option.map Registry.len (registry_at registered 0) ≡ some 1)
    × (Option.map Registry.len (registry_at (drop 2 registered) 0) ≡ some 0)
unfolding new clone with_parents Registry.new share try_register_in drop forget Registry.len
cleanup = (refl, refl)

-- The registry of node 2 was dropped, and there is another one.
abbrev stale : World slots ℕ ℕ
unfolding new clone with_parents Registry.new share try_register_in
stale = record registered {
  registries =
      record { strong = 0; registry = Registry.new slots }
      ∷ record { strong = 1; registry = Registry.new slots }
      ∷ [];
}

stale_refused :
    (node_registry 2 stale ≡ (none, stale)) × (try_register_in 2 1 stale ≡ (none, stale))
unfolding new clone with_parents Registry.new share try_register_in node_registry
stale_refused = (refl, refl)

try_register_in-registers_example :
    (id : ℕ) × (s : Registry slots) × ((try_register_in 2 0 world).0 ≡ some id)
    × (registry_at (try_register_in 2 0 world).1 0 ≡ some s)
    × (get_id s 2 ≡ some id)
    × (slots.get Ptr s.nodes id ≡ some 2)
    × (registry_of (try_register_in 2 0 world).1.heap 2 ≡ some 0)
unfolding new clone with_parents Registry.new share
try_register_in-registers_example =
    try_register_in-registers 2 0 world (Registry.new slots) (omega arith) refl
      (new-Bijective slots) (inl refl)

-- Hashes that are words.
abbrev words : Hashes
words = record {
  RelRcHash = ℕ;
  to_usize = λ h. h;
  from_usize = λ n. n;
  from_usize-to_usize = λ h. refl;
}

abbrev detached : DetachedInnerData words ℕ ℕ
detached = record { value = 20; incoming = (5, 7) ∷ (6, 8) ∷ [] }

mpi_recv-mpi_send_example :
    mpi_recv words (mpi_send words 9 detached [] ++ []) ≡ some ((9, detached), [])
mpi_recv-mpi_send_example = mpi_recv-mpi_send words 9 detached []

abbrev request : ℕ → Message words ℕ ℕ
request h = request_rel_rc h

extract_message_cases_example :
    (extract_message words (packet (request 0)) ≡ some (request 0))
    ⊎ ((h : ℕ) × (request 0 ≡ request h)
        × (h ≡ 0)
        × (extract_message words (packet (request 0)) ≡ some done))
extract_message_cases_example = extract_message_cases (request 0)
