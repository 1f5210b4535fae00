-- ===== src/Links/Linking.antt =====
-- `with_parents` of src/node.rs links the new node to its parents.
use relrc.Prelude.{
  ℕ, suc, ◌+◌, ◌<◌, ◌≡◌, ◌∙◌, inl, inr, List, [], ◌∷◌, ◌++◌, arith, ◌==◌, if◌then◌else◌, get_elem?,
  get_elem?-concat, lt-length_of_get_elem?, length, length-append, Option-cases, All, All-map,
  All-of_count, count-append,
}
use relrc.Object.{Ptr, RcBox, InnerEdgeData, Heap, sources, strong_count}
use relrc.Node.{with_parents, incoming_edges, with_incoming}
use relrc.Counts.{IsCounted, sources_at}
use relrc.Counts.Creating.{handles, sources-incoming_edges, owned-lt-length}
use relrc.Links.Pushing.{
  weak_count-register, pushed-incoming_edges, register_from-sources, register_from-strong,
  register_from-length, starts_at_below,
}
use relrc.Links.{IsLinked, outgoing_at, weak_count, starts_at}

live_below : {N E : Type 0} (h : Heap N E) (t : Ptr) → 0 < strong_count h t → t < length h
live_below h t live = elim (Option-cases (get_elem? h t)) [
  | inl e ↦ absurd (ground arith)
  | inr (b, e) ↦ lt-length_of_get_elem? h t e
]

module _ {N E : Type 0} (value : N) (parents : List (Ptr × E)) (h : Heap N E) where
  abbrev node_box : RcBox N E
  node_box = record { strong = 1; inner = with_incoming value (incoming_edges (length h) parents) }

  abbrev result : Heap N E
  result = (with_parents value parents h).1

  result-strong :
      (q : Ptr) → strong_count result q ≡ (if q == length h then 1 else strong_count h q)
  unfolding with_parents
  result-strong q =
      register_from-strong 0 (incoming_edges (length h) parents) (h ++ node_box ∷ []) q
      ∙ ground (arith, get_elem?-concat h node_box q)

  result-sources :
      (q : Ptr) → sources_at result q ≡ (if q == length h then handles parents else sources_at h q)
  unfolding with_parents
  result-sources q =
      register_from-sources 0 (incoming_edges (length h) parents) (h ++ node_box ∷ []) q
      ∙ ground (arith, get_elem?-concat h node_box q, sources-incoming_edges (length h) parents)

  result-length : length result ≡ suc (length h)
  unfolding with_parents
  result-length = omega (
    arith,
    register_from-length 0 (incoming_edges (length h) parents) (h ++ node_box ∷ []),
    length-append h (node_box ∷ []),
  )

  result-weak :
      (s t : Ptr) (i : ℕ)
      → All (λ q. q < length h) (handles parents)
      → weak_count i t (outgoing_at result s)
        ≡ (if s == length h then 0 else weak_count i t (outgoing_at h s))
          + (if t == length h then starts_at s (get_elem? (handles parents) i) else 0)
  unfolding with_parents
  result-weak s t i below =
      let es : List (InnerEdgeData E) = incoming_edges (length h) parents in
      let below' : All (λ q. q < length (h ++ node_box ∷ [])) (sources es) =
        rw (sources-incoming_edges (length h) parents) (
          All-map (handles parents) (λ q lt. omega (arith, length-append h (node_box ∷ [])))
            below) in
      ground (
        arith,
        weak_count-register 0 es (h ++ node_box ∷ []) s t i below',
        get_elem?-concat h node_box s,
        pushed-incoming_edges 0 parents (length h) s t i,
      )

  module _ (roots : List Ptr) (c : IsCounted (handles parents ++ roots) h) where
    parents_below : All (λ q. q < length h) (handles parents)
    parents_below =
        All-of_count (handles parents)
          λ q found. owned-lt-length q c (omega (arith, count-append q (handles parents) roots))

    -- `with_parents` keeps the links right.
    pub with_parents-IsLinked : IsLinked h → IsLinked result
    with_parents-IsLinked l = record {
      linked = λ s t i live_s live_t. ground (
        arith,
        result-weak s t i parents_below,
        result-strong s,
        result-strong t,
        result-sources t,
        l.linked s t i,
        l.absent s t i,
        starts_at_below s t (sources_at h t) i (c.ordered t),
        live_below h t,
      );
      absent = λ s t i live_s far.
          ground (
            arith,
            result-weak s t i parents_below,
            result-strong s,
            result-length,
            l.absent s t i,
          );
    }
