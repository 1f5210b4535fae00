-- ===== src/Counts/Dropping.antt =====
-- `drop` of src/node.rs hands back exactly the handle that it is given.
use relrc.Prelude.{
  ℕ, zero, suc, ◌<◌, ◌≤◌, ◌≡◌, refl, inl, inr, false, none, List, [], ◌∷◌, ◌++◌, arith, ◌==◌, ltb,
  ltb→lt, ltb→ge, get_elem?, modify, count-append, Option-cases, Bool-cases, All, All-map,
}
use relrc.SlotMap.{SlotMaps}
use relrc.Object.{Ptr, Heap, sources, deref, strong_count, over_inner}
use relrc.World.{World}
use relrc.Drop.{free, set_registry, parents_of, unregister, each, release, drop}
use relrc.Counts.{IsCounted, sources_at}
use relrc.Counts.Update.{
  edge_refs-modify, strong_count-modify, sources-modify, sources-same, strong-same, IsCounted-keep,
  IsCounted-decrement,
}

module _ {N E : Type 0} {roots : List Ptr} {h : Heap N E} {p : Ptr} where
  -- The last handle goes: the box is freed, and the handles in its edges are owned by nobody yet.
  free-IsCounted :
      IsCounted (p ∷ roots) h
      → strong_count h p ≤ 1
      → IsCounted (sources_at h p ++ roots) (modify h p free)
  free-IsCounted c last = elim (Option-cases (get_elem? h p)) [
    | inl e ↦ absurd (ground (arith, c.counted p))
    | inr (b, e) ↦ record {
      counted = λ q. ground (
        arith,
        c.counted p,
        c.counted q,
        edge_refs-modify h p q free e,
        strong_count-modify h p q free e,
        count-append q (sources b.inner.incoming) roots,
      );
      ordered = λ q. rw (sources-modify h p q free e) (elim (Bool-cases (p == q)) [
        | inl same ↦ rw same tt
        | inr other ↦ rw other (c.ordered q)
      ]);
      freed = λ q z.
          ground (arith, sources-modify h p q free e, strong_count-modify h p q free e, c.freed q);
    }
  ]

-- What a reference leads to has the sources of its box: a freed box has none.
pub parents-sources :
    {N E : Type 0} {roots : List Ptr} {h : Heap N E} (p : Ptr)
    → IsCounted roots h
    → parents_of (deref h p) ≡ sources_at h p
parents-sources {h} p c = elim (Option-cases (get_elem? h p)) [
  | inl e ↦ ground arith
  | inr (b, e) ↦ ground (arith, c.freed p)
]

module _ {S : SlotMaps} {N E : Type 0} where
  -- Leaving a registry changes no box but the one that leaves, and of that only the registry.
  pub unregister-heap :
      (p : Ptr) (w : World S N E)
      → (unregister p w).heap ≡ modify w.heap p (over_inner (set_registry none))
  unfolding unregister
  unregister-heap p w = ground arith

  last-IsCounted :
      (p : Ptr) (w : World S N E) (roots : List Ptr)
      → IsCounted (p ∷ roots) w.heap
      → ltb 1 (strong_count w.heap p) ≡ false
      → IsCounted (parents_of (deref w.heap p) ++ roots) (modify (unregister p w).heap p free)
  last-IsCounted p w roots c last =
      let f = over_inner (set_registry {N = N} {E = E} none) in
      let c' = IsCounted-keep c p f (λ b. (refl, refl)) in
      let few : strong_count (modify w.heap p f) p ≤ 1 =
        rw (strong-same w.heap p p f (λ b. refl)) (ltb→ge _ _ last) in
      rw (unregister-heap p w, parents-sources p c, ← sources-same w.heap p p f (λ b. refl))
        (free-IsCounted c' few)

  each-IsCounted :
      (depth : ℕ)
      → ((p : Ptr) (w : World S N E) (roots : List Ptr)
          → p < depth
          → IsCounted (p ∷ roots) w.heap
          → IsCounted roots (release depth p w).heap)
      → (ps : List Ptr) (w : World S N E) (roots : List Ptr) → All (λ p. p < depth) ps
      → IsCounted (ps ++ roots) w.heap
      → IsCounted roots (each (release depth) ps w).heap
  unfolding each
  each-IsCounted depth one [] w roots below c = c
  each-IsCounted depth one (p ∷ ps) w roots below c =
      each-IsCounted depth one ps (release depth p w) roots below.1
        (one p w (ps ++ roots) below.0 c)

  release-IsCounted :
      (depth : ℕ) (p : Ptr) (w : World S N E) (roots : List Ptr)
      → p < depth
      → IsCounted (p ∷ roots) w.heap
      → IsCounted roots (release depth p w).heap
  unfolding release
  release-IsCounted zero p w roots lt c = absurd (omega arith)
  release-IsCounted (suc depth) p w roots lt c = elim (Bool-cases (ltb 1 (strong_count w.heap p))) [
    | inl more ↦ rw (more, release) (IsCounted-decrement c (ltb→lt _ _ more))
    | inr last ↦
        rw (last, release)
          (each-IsCounted depth (release-IsCounted depth) (parents_of (deref w.heap p)) _ roots
            (rw (parents-sources p c)
              (All-map (sources_at w.heap p) (λ q below. omega arith) (c.ordered p)))
            (last-IsCounted p w roots c last))
  ]

  -- Dropping a handle gives back that handle: the counts then fit the handles that are left.
  pub drop-IsCounted :
      (p : Ptr) (w : World S N E) (roots : List Ptr)
      → IsCounted (p ∷ roots) w.heap
      → IsCounted roots (drop p w).heap
  unfolding drop
  drop-IsCounted p w roots c = release-IsCounted (suc p) p w roots (omega arith) c

module _ {S : SlotMaps} {N E : Type 0} where
  -- Handles that are dropped one after the other
  pub each-drop-IsCounted :
      (ps : List Ptr) (w : World S N E) (roots : List Ptr)
      → IsCounted (ps ++ roots) w.heap
      → IsCounted roots (each drop ps w).heap
  unfolding each
  each-drop-IsCounted [] w roots c = c
  each-drop-IsCounted (p ∷ ps) w roots c =
      each-drop-IsCounted ps (drop p w) roots (drop-IsCounted p w (ps ++ roots) c)
