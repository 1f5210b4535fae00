-- ===== src/Links/Following.antt =====
-- An edge that `all_outgoing` of src/node.rs returned can be followed: `Edge::deref` of src/edge.rs.
use mathlib.Core.Option
use relrc.Prelude.{
  ℕ, zero, suc, ◌<◌, ◌≡◌, refl, sym, ◌∙◌, ap, subst, inl, inr, Option, none, some, List, [], ◌∷◌,
  arith, ◌==◌, ==_iff, get_elem?, Option-cases, Bool-cases, false,
}
use relrc.Object.{Ptr, InnerEdgeData, Heap, sources, strong_count}
use relrc.Node.{all_outgoing, edge_deref}
use relrc.Counts.{sources_at, box_sources}
use relrc.Links.{IsLinked, starts_at}
use relrc.Links.Raising.{edge_count}
use relrc.Links.Outgoing.{all_outgoing-edges, still-alive, after-sources}

edge_of_source :
    {E : Type 0} (es : List (InnerEdgeData E)) (i : ℕ) (p : Ptr)
    → get_elem? (sources es) i ≡ some p
    → (e : InnerEdgeData E) × (get_elem? es i ≡ some e) × (e.source ≡ p)
edge_of_source [] zero p at = cc
edge_of_source [] (suc i) p at = cc
edge_of_source (e ∷ es) zero p at = (e, refl, cc)
edge_of_source (e ∷ es) (suc i) p at = edge_of_source es i p at

starts_at-some : (p : Ptr) (o : Option Ptr) → 0 < starts_at p o → o ≡ some p
starts_at-some p none starts = absurd (omega arith)
starts_at-some p (some q) starts = elim (Bool-cases (p == q)) [
  | inl same ↦ ap some (sym ((==_iff p q).0 same))
  | inr apart ↦ absurd (ground arith)
]

edge_deref-at :
    {N E : Type 0} (g : Heap N E) (p t : Ptr) (i : ℕ)
    → 0 < strong_count g t
    → get_elem? (sources_at g t) i ≡ some p
    → (d : InnerEdgeData E) × (edge_deref (record { index = i; target = t }) g ≡ some d)
      × (d.source ≡ p)
unfolding edge_deref Option.bind
edge_deref-at g p t i alive at = elim (Option-cases (get_elem? g t)) [
  | inl gone ↦ absurd (ground arith)
  | inr (b, e) ↦
      let not_dead : (b.strong == 0) ≡ false = ground arith in
      let (d, found, start) =
        edge_of_source b.inner.incoming i p
          (subst (λ o. get_elem? (box_sources o) i ≡ some p) e at) in
      (d, rw (edge_deref, e, not_dead) found, start)
]

-- Where links are right, `Edge::deref` does not panic on an edge that `all_outgoing` of a node
-- returned, and the edge that it leads to starts at the node.
pub edge_deref-all_outgoing :
    {N E : Type 0} (p : Ptr) (h : Heap N E) (t : Ptr) (i : ℕ)
    → IsLinked h
    → 0 < strong_count h p
    → 0 < edge_count i t (all_outgoing p h).0
    → (d : InnerEdgeData E) × (edge_deref (record { index = i; target = t }) (all_outgoing p h).1
        ≡ some d)
      × (d.source ≡ p)
edge_deref-all_outgoing p h t i l alive returned =
    let listed = all_outgoing-edges p h t i l alive in
    elim (Bool-cases (strong_count h t == 0)) [
      | inl dead ↦ absurd (ground arith)
      | inr live ↦
          let target_alive : 0 < strong_count h t = ground arith in
          let start = starts_at-some p (get_elem? (sources_at h t) i) (ground arith) in
          edge_deref-at (all_outgoing p h).1 p t i (still-alive p h t target_alive)
            (ap (λ qs. get_elem? qs i) (after-sources p h t) ∙ start)
    ]
