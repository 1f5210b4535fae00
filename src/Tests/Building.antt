-- ===== src/Tests/Building.antt =====
-- Runs of `attach` of src/detached.rs, and the theorems about it at concrete inputs.
use mathlib.Core.Option
use mathlib.Core.List.{Memᴰ}
use relrc.Prelude.{
  ℕ, ◌≡◌, ◌↔◌, inl, inr, refl, true, false, Option, none, some, List, [], ◌∷◌, ◌==◌, arith, All,
  Bool-cases,
}
use relrc.SlotMap.Reference.{slots}
use relrc.Object.{Ptr, clone, deref}
use relrc.Node
use relrc.Node.{with_parents}
use relrc.World.{World}
use relrc.Drop.{parents_of}
use relrc.Detached.{Detached, post_order_for_each}
use relrc.Detached.Building.{collect_handles, build_order, attach}
use relrc.Detached.Building.Ordered.{IsOrdered}
use relrc.Detached.Building.Attached.{attach_iff}
use relrc.Detached.Visiting.Ending.{post_order_for_each-ends}
use relrc.Tests.{words}
use relrc.Tests.Detaching.{diamond, diamond_parents, hash_of}

-- src/detached.rs, test_detach_and_attach_diamond: `root2` and `left_child2`
abbrev pub second : World slots ℕ ℕ
unfolding Node.new with_parents clone
second = record {
  heap = (with_parents 20 ((0, 0) ∷ []) (clone 0 (Node.new 10 []).1)).1;
  registries = [];
}

attach_iff_example :
    (ids : List ℕ) × (build_order words diamond (collect_handles words hash_of (0 ∷ 1 ∷ []) [])
      ≡ some ids)
    × (((out : Ptr × World slots ℕ ℕ) × (attach words hash_of diamond (0 ∷ 1 ∷ []) second
            ≡ some out))
        ↔ IsOrdered words diamond (collect_handles words hash_of (0 ∷ 1 ∷ []) []) (λ k. false) ids)
attach_iff_example = attach_iff words hash_of diamond (0 ∷ 1 ∷ []) second refl

abbrev parents_and_node : Option (Ptr × World slots ℕ ℕ) → Option (Ptr × List Ptr)
parents_and_node none = none
parents_and_node (some (p, w)) = some (p, parents_of (deref w.heap p))

-- The grandchild is node 3, and its parents are the child that was there and the new one.
diamond_attached :
    parents_and_node (attach words hash_of diamond (0 ∷ 1 ∷ []) second) ≡ some (3, 1 ∷ 2 ∷ [])
unfolding second Node.new with_parents clone attach Option.bind
diamond_attached = refl

-- Node 3 has the parents 1 and 2, and node 2 the parent 1, all detached.
abbrev triangle : Detached words ℕ ℕ
triangle = record {
  current = 3;
  all_data =
      (3, record { value = 30; incoming = (1, 5) ∷ (2, 6) ∷ [] })
      ∷ (2, record { value = 20; incoming = (1, 7) ∷ [] })
      ∷ (1, record { value = 10; incoming = [] })
      ∷ [];
}

triangle_panics : attach words hash_of triangle [] second ≡ none
unfolding second Node.new with_parents clone attach Option.bind
triangle_panics = refl

diamond_known : (v : ℕ) → All (λ u. Memᴰ u (1 ∷ 2 ∷ 3 ∷ [])) (diamond_parents v)
diamond_known v =
    let one : Memᴰ 1 (1 ∷ 2 ∷ 3 ∷ []) = Memᴰ.head refl in
    let two : Memᴰ 2 (1 ∷ 2 ∷ 3 ∷ []) = Memᴰ.tail (Memᴰ.head refl) in
    let three : Memᴰ 3 (1 ∷ 2 ∷ 3 ∷ []) = Memᴰ.tail (Memᴰ.tail (Memᴰ.head refl)) in
    elim (Bool-cases (v == 4)) [
      | inl four ↦ rw four (two, (three, tt))
      | inr other ↦ elim (Bool-cases (v == 3)) [
        | inl is_three ↦ rw (other, is_three) (one, tt)
        | inr not_three ↦ elim (Bool-cases (v == 2)) [
          | inl is_two ↦ rw (other, not_three, is_two) (one, tt)
          | inr not_two ↦ rw (other, not_three, not_two) tt
        ]
      ]
    ]

post_order_for_each-ends_example :
    (calls : List ℕ) × (post_order_for_each ◌==◌ diamond_parents (λ _. true) 9 4 ≡ some calls)
    × Memᴰ 4 calls
post_order_for_each-ends_example =
    post_order_for_each-ends ◌==◌ diamond_parents (λ _. true) (1 ∷ 2 ∷ 3 ∷ []) 9 4
      (λ v. ground arith) diamond_known (omega arith)
