-- ===== src/Program/Later.antt =====
-- What no operation of src/node.rs changes: the value and the incoming edges of a node that was
-- created, for as long as it is alive. A node that is dead stays dead.
use relrc.Prelude.{
  ℕ, suc, ◌<◌, ◌≤◌, ◌≡◌, refl, inl, inr, ◌⊎◌, Option, none, some, List, [], ◌∷◌, ◌++◌, arith, ◌==◌,
  get_elem?, modify, get_elem?-modify, get_elem?-concat, length, length-modify, length-append,
  Option-cases, Bool-cases,
}
use relrc.SlotMap.{SlotMaps}
use relrc.Object.{
  Ptr, RcBox, WeakEdge, InnerEdgeData, Heap, deref, strong_count, clone, upgrade, over_inner,
  increment,
}
use relrc.World.{World}
use relrc.Node.{
  with_parents, incoming_edges, register_from, push_outgoing, downgrade, all_outgoing, retain_live,
  outgoing_of,
}
use relrc.Drop.{drop, each, try_register_in, set_registry, registry_field}
use relrc.Counts.Frame.{drop-Shrinks}

abbrev pub made_of : {N E : Type 0} → Option (RcBox N E) → Option (N × List (InnerEdgeData E))
made_of none = none
made_of (some b) = some (b.inner.value, b.inner.incoming)

-- What a node was created with.
abbrev pub made : {N E : Type 0} → Heap N E → Ptr → Option (N × List (InnerEdgeData E))
made h p = made_of (get_elem? h p)

-- `g` may come after `h`.
pub record Later {N E : Type 0} (h g : Heap N E) : Type 0 where
  pub longer : length h ≤ length g
  pub same : (p : Ptr) → p < length h → 0 < strong_count g p → made g p ≡ made h p
  pub dead : (p : Ptr) → p < length h → strong_count h p ≡ 0 → strong_count g p ≡ 0

module _ {N E : Type 0} where
  pub Later-refl : (h : Heap N E) → Later h h
  Later-refl h = record { longer = omega arith; same = λ p lt alive. refl; dead = λ p lt z. z }

  pub Later-trans : {h g k : Heap N E} → Later h g → Later g k → Later h k
  Later-trans {g} {k} a b = record {
    longer = omega (arith, a.longer, b.longer);
    same = λ p lt alive. elim (Bool-cases (strong_count g p == 0)) [
      | inl z ↦ absurd (ground (arith, b.dead p, a.longer))
      | inr some_left ↦ ground (arith, b.same p, a.same p, a.longer)
    ];
    dead = λ p lt z. ground (arith, a.dead p, b.dead p, a.longer);
  }

  -- A change of one box that keeps what it was created with, and does not bring it back.
  pub Later-modify :
      (h : Heap N E) (p : Ptr) (f : RcBox N E → RcBox N E)
      → ((b : RcBox N E)
          → get_elem? h p ≡ some b
          → 0 < (f b).strong
          → made_of (some (f b)) ≡ made_of (some b))
      → ((b : RcBox N E) → get_elem? h p ≡ some b → b.strong ≡ 0 → (f b).strong ≡ 0)
      → Later h (modify h p f)
  Later-modify h p f keep stay = record {
    longer = omega (arith, length-modify h p f);
    same = λ q lt alive. elim (Option-cases (get_elem? h q)) [
      | inl e ↦ ground (arith, get_elem?-modify h p q f)
      | inr (b, e) ↦ ground (arith, get_elem?-modify h p q f, keep b)
    ];
    dead = λ q lt z. elim (Option-cases (get_elem? h q)) [
      | inl e ↦ ground (arith, get_elem?-modify h p q f)
      | inr (b, e) ↦ ground (arith, get_elem?-modify h p q f, stay b)
    ];
  }

  Later-concat : (h : Heap N E) (b : RcBox N E) → Later h (h ++ b ∷ [])
  Later-concat h b = record {
    longer = omega (arith, length-append h (b ∷ []));
    same = λ p lt alive. ground (arith, get_elem?-concat h b p);
    dead = λ p lt z. ground (arith, get_elem?-concat h b p);
  }

  register_from-Later :
      (i : ℕ) (es : List (InnerEdgeData E)) (h : Heap N E) → Later h (register_from i es h)
  unfolding register_from
  register_from-Later i [] h = Later-refl h
  register_from-Later i (e ∷ es) h =
      Later-trans
        (Later-modify h e.source (over_inner (push_outgoing (downgrade e i))) (λ b is live. refl)
          (λ b is z. z))
        (register_from-Later (suc i) es _)

  pub with_parents-Later :
      (value : N) (parents : List (Ptr × E)) (h : Heap N E)
      → Later h (with_parents value parents h).1
  unfolding with_parents
  with_parents-Later value parents h =
      Later-trans (Later-concat h _) (register_from-Later 0 (incoming_edges (length h) parents) _)

  pub clone-Later : (p : Ptr) (h : Heap N E) → 0 < strong_count h p → Later h (clone p h)
  unfolding clone
  clone-Later p h live =
      Later-modify h p increment (λ b is alive. refl) (λ b is z. absurd (ground arith))

  pub upgrade-Later : (p : Ptr) (h : Heap N E) → Later h (upgrade p h).1
  unfolding upgrade
  upgrade-Later p h = elim (Bool-cases (strong_count h p == 0)) [
    | inl dead ↦ rw dead (Later-refl h)
    | inr alive ↦ rw alive (clone-Later p h (ground arith))
  ]

  retain_live-Later : (es : List WeakEdge) (h : Heap N E) → Later h (retain_live es h).1
  unfolding retain_live
  retain_live-Later [] h = Later-refl h
  retain_live-Later (e ∷ es) h =
      Later-trans (upgrade-Later e.target h) (retain_live-Later es (upgrade e.target h).1)

  pub all_outgoing-Later : (p : Ptr) (h : Heap N E) → Later h (all_outgoing p h).1
  unfolding all_outgoing
  all_outgoing-Later p h =
      Later-trans (retain_live-Later (outgoing_of (deref h p)) h)
        (Later-modify _ p _ (λ b is alive. refl) (λ b is z. z))

module _ {S : SlotMaps} {N E : Type 0} where
  pub drop-Later : (p : Ptr) (w : World S N E) → Later w.heap (drop p w).heap
  drop-Later p w =
      let shrunk = drop-Shrinks p w in
      record {
        longer = omega (arith, shrunk.size);
        same = λ q lt alive. elim (Option-cases (get_elem? (drop p w).heap q)) [
          | inl e ↦ absurd (ground arith)
          | inr (b, e) ↦ elim (Option-cases (get_elem? w.heap q)) [
            | inl e' ↦ ground (arith, shrunk.same q)
            | inr (b', e') ↦ ground (arith, shrunk.same q)
          ]
        ];
        dead = λ q lt z. omega (arith, shrunk.fewer q);
      }

  pub each-drop-Later : (ps : List Ptr) (w : World S N E) → Later w.heap (each drop ps w).heap
  unfolding each
  each-drop-Later [] w = Later-refl w.heap
  each-drop-Later (p ∷ ps) w = Later-trans (drop-Later p w) (each-drop-Later ps (drop p w))

  -- Registering writes at most the node's reference to the registry.
  pub try_register_in-heap :
      (p rp : Ptr) (w : World S N E)
      → ((try_register_in p rp w).1.heap ≡ w.heap)
        ⊎ ((try_register_in p rp w).1.heap ≡ modify w.heap p (over_inner (set_registry (some rp))))
  unfolding try_register_in
  try_register_in-heap p rp w = elim (Option-cases (registry_field (deref w.heap p))) [
    | inl e ↦ inr (ground arith)
    | inr (old, e) ↦ inl (ground arith)
  ]

  pub try_register_in-Later :
      (p rp : Ptr) (w : World S N E) → Later w.heap (try_register_in p rp w).1.heap
  try_register_in-Later p rp w = elim (try_register_in-heap p rp w) [
    | inl e ↦ rw e (Later-refl w.heap)
    | inr e ↦ rw e (Later-modify w.heap p _ (λ b is live. refl) (λ b is z. z))
  ]
