-- ===== src/Counts/Frame.antt =====
-- What dropping a handle leaves alone: nodes that stay alive keep their value and their edges.
use relrc.Prelude.{
  ℕ, zero, suc, ◌<◌, ◌≤◌, ◌≡◌, refl, inl, inr, Option, none, some, List, [], ◌∷◌, arith, ltb,
  get_elem?, modify, get_elem?-modify, length, length-modify, count, Option-cases, Bool-cases, ◌↔◌,
  ◌∙◌,
}
use relrc.SlotMap.{SlotMaps}
use relrc.Object.{Ptr, RcBox, InnerEdgeData, WeakEdge, Heap, deref, strong_count, decrement}
use relrc.World.{World}
use relrc.Drop.{free, parents_of, unregister, each, release, drop}
use relrc.Counts.{IsCounted, sources_at}
use relrc.Counts.Dropping.{unregister-heap, drop-IsCounted}
use relrc.Counts.Reach.{Reaches, here, up, Held, alive_iff}

abbrev pub content_of :
    {N E : Type 0} → Option (RcBox N E) → Option (N × List (InnerEdgeData E) × List WeakEdge)
content_of none = none
content_of (some b) = some (b.inner.value, b.inner.incoming, b.inner.outgoing)

-- The value of a node, its incoming edges and its weak references to outgoing edges.
abbrev pub content :
    {N E : Type 0} → Heap N E → Ptr → Option (N × List (InnerEdgeData E) × List WeakEdge)
content h p = content_of (get_elem? h p)

pub record Shrinks {N E : Type 0} (h g : Heap N E) : Type 0 where
  pub size : length g ≡ length h
  pub fewer : (p : Ptr) → strong_count g p ≤ strong_count h p
  pub same : (p : Ptr) → 0 < strong_count g p → content g p ≡ content h p

Shrinks-trans : {N E : Type 0} {h g k : Heap N E} → Shrinks h g → Shrinks g k → Shrinks h k
Shrinks-trans a b = record {
  size = b.size ∙ a.size;
  fewer = λ p. omega (arith, a.fewer p, b.fewer p);
  same = λ p alive. b.same p alive ∙ a.same p (omega (arith, b.fewer p));
}

module _ {N E : Type 0} where
  -- A box's new count is lower, and where it is not 0 the content stays.
  Shrinks-modify :
      (h : Heap N E) (p : Ptr) (f : RcBox N E → RcBox N E)
      → ((b : RcBox N E) → (f b).strong ≤ b.strong)
      → ((b : RcBox N E) → 0 < (f b).strong → content_of (some (f b)) ≡ content_of (some b))
      → Shrinks h (modify h p f)
  Shrinks-modify h p f lower keep = record {
    size = length-modify h p f;
    fewer = λ q. elim (Option-cases (get_elem? h q)) [
      | inl e ↦ ground (arith, get_elem?-modify h p q f)
      | inr (b, e) ↦ ground (arith, get_elem?-modify h p q f, lower b)
    ];
    same = λ q alive. elim (Option-cases (get_elem? h q)) [
      | inl e ↦ ground (arith, get_elem?-modify h p q f)
      | inr (b, e) ↦ ground (arith, get_elem?-modify h p q f, keep b)
    ];
  }

module _ {S : SlotMaps} {N E : Type 0} where
  pub Shrinks-each :
      (f : Ptr → World S N E → World S N E)
      → ((p : Ptr) (w : World S N E) → Shrinks w.heap (f p w).heap)
      → (ps : List Ptr) (w : World S N E) → Shrinks w.heap (each f ps w).heap
  unfolding each
  Shrinks-each f one [] w = record { size = refl; fewer = λ p. omega arith; same = λ p alive. refl }
  Shrinks-each f one (p ∷ ps) w = Shrinks-trans (one p w) (Shrinks-each f one ps (f p w))

  pub release-Shrinks :
      (depth : ℕ) (p : Ptr) (w : World S N E) → Shrinks w.heap (release depth p w).heap
  unfolding release
  release-Shrinks zero p w = record {
    size = refl;
    fewer = λ p. omega arith;
    same = λ p alive. refl;
  }
  release-Shrinks (suc depth) p w = elim (Bool-cases (ltb 1 (strong_count w.heap p))) [
    | inl more ↦
        rw (more, release) (Shrinks-modify w.heap p decrement (λ b. omega arith) (λ b alive. refl))
    | inr last ↦
        rw (last, release)
          (Shrinks-trans
            (rw (unregister-heap p w)
              (Shrinks-modify w.heap p _ (λ b. omega arith) (λ b alive. refl)))
            (Shrinks-trans
              (Shrinks-modify (unregister p w).heap p free (λ b. omega arith)
                (λ b alive. absurd (omega arith)))
              (Shrinks-each (release depth) (release-Shrinks depth) (parents_of (deref w.heap p))
                _)))
  ]

  pub drop-Shrinks : (p : Ptr) (w : World S N E) → Shrinks w.heap (drop p w).heap
  unfolding drop
  drop-Shrinks p w = release-Shrinks (suc p) p w

module _ {N E : Type 0} {h g : Heap N E} (shrunk : Shrinks h g) where
  pub sources-Shrinks : (q : Ptr) → 0 < strong_count g q → sources_at g q ≡ sources_at h q
  sources-Shrinks q alive = elim (Option-cases (get_elem? g q)) [
    | inl e ↦ absurd (ground arith)
    | inr (b, e) ↦ elim (Option-cases (get_elem? h q)) [
      | inl e' ↦ ground (arith, shrunk.same q)
      | inr (b', e') ↦ ground (arith, shrunk.same q)
    ]
  ]

module _ {S : SlotMaps} {N E : Type 0} (p : Ptr) (w : World S N E) {roots : List Ptr}
    (c : IsCounted (p ∷ roots) w.heap) where
  -- A path from a handle that is left, in the heap before the drop, is there after it.
  path-after : {r q : Ptr} → 0 < count r roots → Reaches w.heap r q → Reaches (drop p w).heap r q
  path-after own here = here
  path-after {r} own (up {q} {p = above} path edge) =
      let path' = path-after own path in
      let alive = (alive_iff (drop-IsCounted p w roots c) q).1 (r, own, path') in
      up path' (rw (sources-Shrinks (drop-Shrinks p w) q alive) edge)

  path-before : {r q : Ptr} → 0 < count r roots → Reaches (drop p w).heap r q → Reaches w.heap r q
  path-before own here = here
  path-before {r} own (up {q} path edge) =
      let alive = (alive_iff (drop-IsCounted p w roots c) q).1 (r, own, path) in
      up (path-before own path) (rw (sources-Shrinks (drop-Shrinks p w) q alive) at edge)

  -- Where counts are right, a node is alive after `drop` of a handle that the program owns exactly if
  -- one of the handles that are left led to it before.
  pub alive-drop : (q : Ptr) → (0 < strong_count (drop p w).heap q) ↔ Held roots w.heap q
  alive-drop q =
      let iff = alive_iff (drop-IsCounted p w roots c) q in
      (
        λ alive. let (r, own, path) = iff.0 alive in (r, own, path-before own path),
        λ (r, own, path). iff.1 (r, own, path-after own path),
      )
