-- ===== src/Tracking/Leaving.antt =====
-- A node that is in no registry stays so as handles are dropped (src/node.rs).
use relrc.Prelude.{
  zero, suc, ◌≡◌, refl, inl, inr, none, some, List, [], ◌∷◌, arith, ltb, ◌==◌, modify, get_elem?,
  get_elem?-modify, ℕ, Option-cases, Bool-cases,
}
use relrc.SlotMap.{SlotMaps}
use relrc.Object.{Ptr, RcBox, Heap, strong_count, deref, inner_of, decrement, over_inner}
use relrc.World.{World}
use relrc.Drop.{registry_field, set_registry, free, parents_of, unregister, each, release, drop}
use relrc.Counts.Dropping.{unregister-heap}
use relrc.Tracking.{registry_of}

module _ {N E : Type 0} where
  modify-unregistered :
      (h : Heap N E) (q p : Ptr) (f : RcBox N E → RcBox N E)
      → ((b : RcBox N E)
          → registry_field (inner_of (some b)) ≡ none
          → registry_field (inner_of (some (f b))) ≡ none)
      → registry_of h p ≡ none
      → registry_of (modify h q f) p ≡ none
  modify-unregistered h q p f keep out = elim (Option-cases (get_elem? h p)) [
    | inl e ↦ ground (arith, get_elem?-modify h q p f)
    | inr (b, e) ↦ elim (Bool-cases (q == p)) [
      | inl same ↦
          let before : registry_field (inner_of (some b)) ≡ none = rw e at out in
          rw (get_elem?-modify h q p f, same, e) (keep b before)
      | inr other ↦ rw (get_elem?-modify h q p f, other) out
    ]
  ]

module _ {S : SlotMaps} {N E : Type 0} (p : Ptr) where
  each-unregistered :
      (f : Ptr → World S N E → World S N E)
      → ((q : Ptr) (w : World S N E)
          → registry_of w.heap p ≡ none
          → registry_of (f q w).heap p ≡ none)
      → (qs : List Ptr) (w : World S N E) → registry_of w.heap p ≡ none
      → registry_of (each f qs w).heap p ≡ none
  unfolding each
  each-unregistered f one [] w out = out
  each-unregistered f one (q ∷ qs) w out = each-unregistered f one qs (f q w) (one q w out)

  release-unregistered :
      (depth : ℕ) (q : Ptr) (w : World S N E)
      → registry_of w.heap p ≡ none
      → registry_of (release depth q w).heap p ≡ none
  unfolding release
  release-unregistered zero q w out = out
  release-unregistered (suc depth) q w out = elim (Bool-cases (ltb 1 (strong_count w.heap q))) [
    | inl more ↦
        rw (more, release) (modify-unregistered w.heap q p decrement (λ b before. ground arith) out)
    | inr last ↦
        let left : registry_of (unregister q w).heap p ≡ none = rw (unregister-heap q w) (
          modify-unregistered w.heap q p (over_inner (set_registry none)) (λ b before. ground arith)
            out) in
        rw (last, release)
          (each-unregistered (release depth) (release-unregistered depth)
            (parents_of (deref w.heap q)) _
            (modify-unregistered (unregister q w).heap q p free (λ b before. refl) left))
  ]

  pub each-drop_unregistered :
      (qs : List Ptr) (w : World S N E)
      → registry_of w.heap p ≡ none
      → registry_of (each drop qs w).heap p ≡ none
  unfolding drop
  each-drop_unregistered = each-unregistered drop (λ q w. release-unregistered (suc q) q w)
