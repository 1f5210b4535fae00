-- ===== src/Tests/Attaching.antt =====
-- A grandchild that is attached (src/detached.rs), and a child that arrives (src/detached/mpi.rs).
use relrc.Prelude.{ℕ, ◌≡◌, ◌≢◌, inl, inr, refl, false, some, [], ◌∷◌, ◌==◌, arith, All, Bool-cases}
use relrc.SlotMap.Reference.{slots}
use relrc.Object.{Ptr, Heap, clone}
use relrc.Node
use relrc.Node.{with_parents}
use relrc.World.{World}
use relrc.Counts.{IsCounted}
use relrc.Counts.Update.{IsCounted-count}
use relrc.Counts.Creating.{new-IsCounted, clone-IsCounted, with_parents-IsCounted}
use relrc.Valid.{empty-IsValid}
use relrc.Mpi.Protocol.{find_data}
use relrc.Mpi.Protocol.Attaching.{attach_received, IsReceived, attach_received-transfer}
use relrc.Detached.{post_order_for_each}
use relrc.Detached.Building.{collect_handles, build_order, parents_in, attach}
use relrc.Detached.Building.Ordered.{IsOrdered}
use relrc.Detached.Building.Copying.Ending.{IsAttached, attach-IsAttached}
use relrc.Mpi.Protocol.{standard}
use relrc.Tests.{words, family, family-IsValid}
use relrc.Tests.Detaching.{diamond, hash_of}
use relrc.Tests.Building.{second}
use relrc.Tests.Protocol.{chain, last}
use relrc.Tests.Delivering.{child, child_detached, child-Run}

second-IsCounted : IsCounted (0 ∷ 1 ∷ []) second.heap
unfolding Node.new with_parents clone
second-IsCounted =
    let empty : Heap ℕ ℕ = [] in
    let root = new-IsCounted 10 empty [] (empty-IsValid ℕ ℕ).counts in
    let twice = clone-IsCounted root 0 (omega arith) in
    let both = with_parents-IsCounted 20 ((0, 0) ∷ []) _ (0 ∷ []) twice in
    IsCounted-count (λ p. omega arith) both

diamond_order :
    build_order words diamond (collect_handles words hash_of (0 ∷ 1 ∷ []) []) ≡ some (3 ∷ 4 ∷ [])
unfolding build_order post_order_for_each
diamond_order = refl

never_parent : (k : ℕ) → All (λ u. u ≢ 4) (parents_in words (find_data words diamond.all_data k))
never_parent k = elim (Bool-cases (4 == k)) [
  | inl four ↦ rw four (omega arith)
  | inr other ↦ elim (Bool-cases (3 == k)) [
    | inl three ↦ rw (other, three) (omega arith)
    | inr neither ↦ rw (other, neither) tt
  ]
]

diamond-IsOrdered :
    IsOrdered words diamond
      (collect_handles words hash_of (0 ∷ 1 ∷ []) [])
      (λ k. false)
      (3 ∷ 4 ∷ [])
diamond-IsOrdered = ((_, refl, (refl, tt)), ((_, refl, (refl, (refl, tt))), tt))

attach-IsAttached_example :
    (node : Ptr) × (w' : World slots ℕ ℕ) × (attach words hash_of diamond (0 ∷ 1 ∷ []) second
      ≡ some (node, w'))
    × IsAttached words diamond
        (collect_handles words hash_of (0 ∷ 1 ∷ []) [])
        []
        second.heap
        node
        w'.heap
attach-IsAttached_example =
    attach-IsAttached words hash_of diamond (0 ∷ 1 ∷ []) [] second (3 ∷ 4 ∷ []) second-IsCounted
      refl never_parent diamond_order diamond-IsOrdered

-- The receiver's memory, in which there is nothing
abbrev empty_world : World slots ℕ ℕ
empty_world = record { heap = []; registries = [] }

chain_order : build_order words chain [] ≡ some (1 ∷ 2 ∷ [])
unfolding build_order post_order_for_each
chain_order = refl

never_child : (k : ℕ) → All (λ u. u ≢ 2) (parents_in words (find_data words chain.all_data k))
never_child k = elim (Bool-cases (2 == k)) [
  | inl two ↦ rw two (omega arith)
  | inr other ↦ elim (Bool-cases (1 == k)) [
    | inl one ↦ rw (other, one) tt
    | inr neither ↦ rw (other, neither) tt
  ]
]

attach_received-transfer_example :
    (node : Ptr) × (w' : World slots ℕ ℕ) × (attach_received words hash_of [] chain empty_world
      ≡ some (node, w'))
    × IsReceived words family hash_of 1 chain [] [] [] node w'.heap
unfolding Node.new with_parents clone
attach_received-transfer_example =
    attach_received-transfer words family hash_of 1 child chain standard standard 8 last hash_of []
      [] empty_world (1 ∷ 2 ∷ []) family-IsValid.counts (omega arith) (λ p. omega arith)
      child_detached (λ e. cc) child-Run refl refl (empty-IsValid ℕ ℕ).counts refl never_child
      chain_order ((_, refl, tt), ((_, refl, (refl, tt)), tt))
