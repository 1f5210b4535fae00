-- ===== src/Tracking/Outliving.antt =====
-- What stays as handles are dropped (src/node.rs): how many hold each registry, and which registry a
-- node that is alive refers to.
use relrc.Prelude.{
  ℕ, zero, suc, ◌<◌, ◌≡◌, refl, false, ◌∙◌, inl, inr, Option, none, some, List, [], ◌∷◌, arith, ltb,
  ◌==◌, modify, get_elem?, get_elem?-modify, Option-cases, Bool-cases, ap,
}
use relrc.SlotMap.{SlotMaps}
use relrc.Object.{Ptr, Heap, strong_count, deref, decrement, over_inner}
use relrc.Registry.{Registry}
use relrc.World.{World, RegistryBox, registry_at, put_registry}
use relrc.Drop.{set_registry, free, parents_of, unregister, each, release, drop, forget}
use relrc.Counts.Dropping.{unregister-heap}
use relrc.Counts.Frame.{Shrinks, Shrinks-each, release-Shrinks}
use relrc.Tracking.{registry_of}
use relrc.Tracking.Freeing.{registry_of-free}

abbrev pub holders_of : {S : SlotMaps} → Option (RegistryBox S) → ℕ
holders_of none = 0
holders_of (some b) = b.strong

-- The strong count of a registry
abbrev pub holders : {S : SlotMaps} {N E : Type 0} → World S N E → Ptr → ℕ
holders w rp = holders_of (get_elem? w.registries rp)

module _ {S : SlotMaps} {N E : Type 0} where
  pub holders-put :
      (w : World S N E) (rp rq : Ptr) (r : Registry S)
      → holders (put_registry w rp r) rq ≡ holders w rq
  holders-put w rp rq r = elim (Option-cases (get_elem? w.registries rq)) [
    | inl e ↦ ground (arith, get_elem?-modify w.registries rp rq (λ b. record b { registry = r }))
    | inr (b, e) ↦
        ground (arith, get_elem?-modify w.registries rp rq (λ b. record b { registry = r }))
  ]

  unregister-holders :
      (p : Ptr) (w : World S N E) (rq : Ptr) → holders (unregister p w) rq ≡ holders w rq
  unfolding unregister
  unregister-holders p w rq = elim (Option-cases (registry_of w.heap p)) [
    | inl e ↦ rw e refl
    | inr (rp, e) ↦ elim (Option-cases (registry_at w rp)) [
      | inl gone ↦ rw (e, gone) refl
      | inr (r, there) ↦ rw (e, there) (holders-put w rp rq (forget r p))
    ]
  ]

  each-holders :
      (f : Ptr → World S N E → World S N E) (rq : Ptr)
      → ((p : Ptr) (w : World S N E) → holders (f p w) rq ≡ holders w rq)
      → (ps : List Ptr) (w : World S N E) → holders (each f ps w) rq ≡ holders w rq
  unfolding each
  each-holders f rq one [] w = refl
  each-holders f rq one (p ∷ ps) w = each-holders f rq one ps (f p w) ∙ one p w

  release-holders :
      (depth : ℕ) (rq p : Ptr) (w : World S N E) → holders (release depth p w) rq ≡ holders w rq
  unfolding release
  release-holders zero rq p w = refl
  release-holders (suc depth) rq p w = elim (Bool-cases (ltb 1 (strong_count w.heap p))) [
    | inl more ↦ rw (more, release) refl
    | inr last ↦
        rw (last, release)
          (each-holders (release depth) rq (release-holders depth rq) (parents_of (deref w.heap p))
              _
            ∙ unregister-holders p w rq)
  ]

  -- Handles of nodes that are dropped hold no registry.
  pub each-drop-holders :
      (rq : Ptr) (ps : List Ptr) (w : World S N E) → holders (each drop ps w) rq ≡ holders w rq
  unfolding drop
  each-drop-holders rq = each-holders drop rq (λ p w. release-holders (suc p) rq p w)

-- Where the node is alive in `g`, it refers there to the registry that it refers to in `h`.
abbrev pub Keeps : {N E : Type 0} → Ptr → Heap N E → Heap N E → Type 0
Keeps q h g = 0 < strong_count g q → registry_of g q ≡ registry_of h q

module _ {S : SlotMaps} {N E : Type 0} (q : Ptr) where
  each-Keeps :
      (f : Ptr → World S N E → World S N E)
      → ((p : Ptr) (w : World S N E) → Shrinks w.heap (f p w).heap)
      → ((p : Ptr) (w : World S N E) → Keeps q w.heap (f p w).heap)
      → (ps : List Ptr) (w : World S N E) → Keeps q w.heap (each f ps w).heap
  unfolding each
  each-Keeps f shrinks one [] w alive = refl
  each-Keeps f shrinks one (p ∷ ps) w alive =
      let rest = Shrinks-each f shrinks ps (f p w) in
      let before : 0 < strong_count (f p w).heap q = omega (arith, rest.fewer q) in
      each-Keeps f shrinks one ps (f p w) alive ∙ one p w before

  release-Keeps : (depth : ℕ) (p : Ptr) (w : World S N E) → Keeps q w.heap (release depth p w).heap
  unfolding release
  release-Keeps zero p w = λ alive. refl
  release-Keeps (suc depth) p w = elim (Bool-cases (ltb 1 (strong_count w.heap p))) [
    | inl more ↦
        rw (more, release)
          (λ alive. elim (Option-cases (get_elem? w.heap q)) [
            | inl e ↦ ground (arith, get_elem?-modify w.heap p q decrement)
            | inr (b, e) ↦ ground (arith, get_elem?-modify w.heap p q decrement)
          ])
    | inr last ↦
        let w' = unregister p w in
        let w1 : World S N E = record w' { heap = modify w'.heap p free } in
        let ps = parents_of (deref w.heap p) in
        rw (last, release)
          (λ alive.
            let rest = Shrinks-each (release depth) (release-Shrinks depth) ps w1 in
            let before : 0 < strong_count w1.heap q = omega (arith, rest.fewer q) in
            let f = over_inner (set_registry {N = N} {E = E} none) in
            let same : w1.heap ≡ modify (modify w.heap p f) p free =
              ap (λ g. modify g p free) (unregister-heap p w) in
            let other : (p == q) ≡ false = elim (Bool-cases (p == q)) [
              | inr apart ↦ apart
              | inl here ↦ elim (Option-cases (get_elem? w'.heap q)) [
                | inl e ↦ absurd (ground (arith, get_elem?-modify w'.heap p q free))
                | inr (b, e) ↦ absurd (ground (arith, get_elem?-modify w'.heap p q free))
              ]
            ] in
            each-Keeps (release depth) (release-Shrinks depth) (release-Keeps depth) ps w1 alive
            ∙ ap (λ g. registry_of g q) same
            ∙ registry_of-free w.heap p q
            ∙ rw other refl)
  ]

  -- A node that is alive after handles were dropped refers to the registry that it did before.
  pub each-drop-Keeps : (ps : List Ptr) (w : World S N E) → Keeps q w.heap (each drop ps w).heap
  unfolding drop
  each-drop-Keeps =
      each-Keeps drop (λ p w. release-Shrinks (suc p) p w) (λ p w. release-Keeps (suc p) p w)
