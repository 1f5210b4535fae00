-- ===== src/Program/Bounding.antt =====
-- How large reference counts get in programs over src/node.rs.
use relrc.Prelude.{
  ℕ, suc, ◌+◌, ◌≤◌, ◌≡◌, refl, ◌∙◌, inl, inr, some, List, [], ◌∷◌, arith, ◌==◌, length, count,
  get_elem?, get_elem?-modify, get_elem?-concat, Bool-cases, Option-cases,
}
use relrc.SlotMap.{SlotMaps}
use relrc.Object.{
  Ptr, WeakEdge, InnerEdgeData, Heap, sources, strong_count, edge_refs, deref, over_inner, clone,
  upgrade, increment,
}
use relrc.Node.{
  with_parents, incoming_edges, register_from, retain_live, all_outgoing, outgoing_of,
  with_incoming,
}
use relrc.Drop.{set_registry}
use relrc.Counts.Update.{strong-same}
use relrc.Counts.Frame.{drop-Shrinks}
use relrc.Valid.{IsValid}
use relrc.Detached.Detaching.{edge_total}
use relrc.Program.{
  State, Step, create, copy, upgraded, outgoing, register, discard, Reach, begin, extend,
}
use relrc.Program.Later.{try_register_in-heap}
use relrc.Program.Running.{Reach-IsValid}

-- The handles that a step makes; `create` makes the one to the new node, and moves those of the parents.
abbrev handed_by : {S : SlotMaps} {N E : Type 0} {s t : State S N E} → Step s t → ℕ
handed_by (create value parents rest same) = 1
handed_by (copy p own) = 1
handed_by (upgraded p got) = 1
handed_by {s} (outgoing p own) = length (all_outgoing p s.world.heap).0
handed_by (register p rp) = 0
handed_by (discard p rest same) = 0

abbrev pub handed_out : {S : SlotMaps} {N E : Type 0} {s t : State S N E} → Reach s t → ℕ
handed_out begin = 0
handed_out (extend r step) = handed_by step + handed_out r

count-le-length : (p : Ptr) (ps : List Ptr) → count p ps ≤ length ps
count-le-length p [] = omega arith
count-le-length p (q ∷ ps) = ground (arith, count-le-length p ps)

count-sources :
    {E : Type 0} (p : Ptr) (es : List (InnerEdgeData E)) → count p (sources es) ≤ length es
count-sources p [] = omega arith
count-sources p (e ∷ es) = ground (arith, count-sources p es)

module _ {N E : Type 0} where
  register_from-strong :
      (i : ℕ) (es : List (InnerEdgeData E)) (h : Heap N E) (p : Ptr)
      → strong_count (register_from i es h) p ≡ strong_count h p
  unfolding register_from
  register_from-strong i [] h p = refl
  register_from-strong i (e ∷ es) h p =
      register_from-strong (suc i) es _ p ∙ strong-same h e.source p _ (λ b. refl)

  with_parents-strong :
      (value : N) (parents : List (Ptr × E)) (h : Heap N E) (p : Ptr)
      → strong_count (with_parents value parents h).1 p ≤ 1 + strong_count h p
  unfolding with_parents
  with_parents-strong value parents h p =
      rw (register_from-strong 0 (incoming_edges (length h) parents) _ p) (
        ground (
          arith,
          get_elem?-concat h
              (record {
                strong = 1;
                inner = with_incoming value (incoming_edges (length h) parents);
              })
              p,
        ))

  clone-strong :
      (q : Ptr) (h : Heap N E) (p : Ptr) → strong_count (clone q h) p ≤ 1 + strong_count h p
  unfolding clone
  clone-strong q h p = elim (Option-cases (get_elem? h p)) [
    | inl e ↦ ground (arith, get_elem?-modify h q p increment)
    | inr (b, e) ↦ ground (arith, get_elem?-modify h q p increment)
  ]

  upgrade-strong :
      (q : Ptr) (h : Heap N E) (p : Ptr) → strong_count (upgrade q h).1 p ≤ 1 + strong_count h p
  unfolding upgrade
  upgrade-strong q h p = elim (Bool-cases (strong_count h q == 0)) [
    | inl dead ↦ rw dead (omega arith)
    | inr alive ↦ rw alive (clone-strong q h p)
  ]

  -- Each edge that is returned holds a handle more.
  retain_live-strong :
      (es : List WeakEdge) (h : Heap N E) (p : Ptr)
      → strong_count (retain_live es h).1 p ≤ length (retain_live es h).0.0 + strong_count h p
  unfolding retain_live upgrade
  retain_live-strong [] h p = omega arith
  retain_live-strong (e ∷ es) h p = elim (Bool-cases (strong_count h e.target == 0)) [
    | inl dead ↦ rw dead (retain_live-strong es h p)
    | inr alive ↦
        let more = clone-strong e.target h p in
        let rest = retain_live-strong es (clone e.target h) p in rw alive (omega arith)
  ]

  all_outgoing-strong :
      (q : Ptr) (h : Heap N E) (p : Ptr)
      → strong_count (all_outgoing q h).1 p ≤ length (all_outgoing q h).0 + strong_count h p
  unfolding all_outgoing
  all_outgoing-strong q h p =
      let kept = retain_live (outgoing_of (deref h q)) h in
      rw
        (strong-same kept.1 q p (over_inner (λ inner. record inner { outgoing = kept.0.1 }))
          (λ b. refl))
        (retain_live-strong (outgoing_of (deref h q)) h p)

  edge_refs-le-edge_total : (h : Heap N E) (p : Ptr) → edge_refs h p ≤ edge_total h
  edge_refs-le-edge_total [] p = omega arith
  edge_refs-le-edge_total (b ∷ h) p =
      omega (arith, count-sources p b.inner.incoming, edge_refs-le-edge_total h p)

module _ {S : SlotMaps} {N E : Type 0} where
  Step-strong :
      {s t : State S N E} (step : Step s t) (p : Ptr)
      → strong_count t.world.heap p ≤ handed_by step + strong_count s.world.heap p
  Step-strong {s} (create value parents rest same) p =
      with_parents-strong value parents s.world.heap p
  Step-strong {s} (copy q own) p = clone-strong q s.world.heap p
  Step-strong {s} (upgraded q got) p = upgrade-strong q s.world.heap p
  Step-strong {s} (outgoing q own) p = all_outgoing-strong q s.world.heap p
  Step-strong {s} (register q rp) p = elim (try_register_in-heap q rp s.world) [
    | inl e ↦ rw e (omega arith)
    | inr e ↦ rw e (
        omega
          (arith, strong-same s.world.heap q p (over_inner (set_registry (some rp))) (λ b. refl)))
  ]
  Step-strong {s} (discard q rest same) p = omega (arith, (drop-Shrinks q s.world).fewer p)

  Reach-strong :
      {s t : State S N E} (r : Reach s t) (p : Ptr)
      → strong_count t.world.heap p ≤ handed_out r + strong_count s.world.heap p
  Reach-strong begin p = omega arith
  Reach-strong (extend r step) p = omega (arith, Step-strong step p, Reach-strong r p)

  -- Whatever operations a program runs from valid memory, the reference count of a node is at most what
  -- it was and the number of handles that the operations made, dropped ones included, and it is at most
  -- the number of handles that the program owns and of edges in memory.
  pub Reach-strong_count :
      {s t : State S N E} (r : Reach s t) (p : Ptr)
      → IsValid s.roots s.world.heap
      → (strong_count t.world.heap p ≤ handed_out r + strong_count s.world.heap p)
        × (strong_count t.world.heap p ≤ length t.roots + edge_total t.world.heap)
  Reach-strong_count {s} {t} r p v =
      let v' = Reach-IsValid r v in
      (
        Reach-strong r p,
        omega (
          arith,
          v'.counts.counted p,
          count-le-length p t.roots,
          edge_refs-le-edge_total t.world.heap p,
        ),
      )
