-- ===== src/Tests/Detaching.antt =====
-- Runs of src/detached.rs, and the theorems about it at concrete inputs.
use relrc.Prelude.{
  ℕ, suc, arith, ◌≡◌, ◌↔◌, refl, true, some, List, [], ◌∷◌, ◌==◌, ◌||◌, All, if◌then◌else◌,
}
use relrc.Object.{Ptr}
use relrc.Detached.{
  Detached, contains_key, all_data_parents, required_hashes, attaches_to, post_order_for_each,
  post_order_loop,
}
use relrc.Detached.Attaching.{attaches_to_iff}
use mathlib.Core.Option
use relrc.Object.{clone}
use relrc.Node
use relrc.Node.{with_parents}
use relrc.Detached.Detaching
use relrc.Detached.Detaching.Taking.{IsDetached, new-IsDetached}
use relrc.Tests.{words, family, family-IsValid}

-- src/detached.rs, test_detach_and_attach_diamond: nodes 4 and 3 are detached, from 1 and 2.
abbrev pub diamond : Detached words ℕ ℕ
diamond = record {
  current = 4;
  all_data =
      (4, record { value = 40; incoming = (2, 0) ∷ (3, 1) ∷ [] })
      ∷ (3, record { value = 30; incoming = (1, 1) ∷ [] })
      ∷ [];
}

abbrev available : List (ℕ × Ptr)
available = (1, 0) ∷ (2, 1) ∷ []

diamond_required :
    (required_hashes words diamond ≡ 2 ∷ 1 ∷ []) × (attaches_to words diamond available ≡ true)
unfolding required_hashes attaches_to
diamond_required = (refl, refl)

attaches_to_iff_example :
    (attaches_to words diamond available ≡ true)
    ↔ All
        (λ hash.
          (contains_key words diamond.all_data hash || contains_key words available hash) ≡ true)
        (all_data_parents words diamond.all_data)
attaches_to_iff_example = attaches_to_iff words diamond available

-- The parents of a diamond, from node 4: each node after its parents.
abbrev pub diamond_parents : ℕ → List ℕ
diamond_parents v =
    if v == 4 then 2 ∷ 3 ∷ [] else if v == 3 then 1 ∷ [] else if v == 2 then 1 ∷ [] else []

diamond_order : post_order_for_each ◌==◌ diamond_parents (λ _. true) 9 4 ≡ some (1 ∷ 3 ∷ 2 ∷ 4 ∷ [])
unfolding post_order_for_each post_order_loop
diamond_order = refl

-- Node 3 has the parents 1 and 2, and node 2 the parent 1.
abbrev triangle_parents : ℕ → List ℕ
triangle_parents v = if v == 3 then 1 ∷ 2 ∷ [] else if v == 2 then 1 ∷ [] else []

-- Node 2 comes before its parent.
triangle_order : post_order_for_each ◌==◌ triangle_parents (λ _. true) 7 3 ≡ some (2 ∷ 1 ∷ 3 ∷ [])
unfolding post_order_for_each post_order_loop
triangle_order = refl

-- A node's hash is one more than its address.
abbrev pub hash_of : Ptr → ℕ
hash_of p = suc p

abbrev detached_family : Detached words ℕ ℕ
detached_family = record {
  current = 3;
  all_data =
      (2, record { value = 20; incoming = (1, 7) ∷ [] })
      ∷ (3, record { value = 30; incoming = (2, 8) ∷ [] })
      ∷ [];
}

-- The grandchild, detached from the root
family_detached : Detaching.new words family hash_of 2 (1 ∷ []) ≡ some detached_family
unfolding Detaching.new with_parents Node.new clone Option.bind
family_detached = refl

new-IsDetached_example :
    (d : Detached words ℕ ℕ) × (Detaching.new words family hash_of 2 (1 ∷ []) ≡ some d)
    × IsDetached words family hash_of 2 (1 ∷ []) d
unfolding with_parents Node.new clone
new-IsDetached_example =
    new-IsDetached words family hash_of 2 (1 ∷ []) family-IsValid.counts (omega arith)
