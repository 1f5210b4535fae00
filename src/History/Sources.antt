-- ===== src/History/Sources.antt =====
-- The source of an edge that is in a graph (src/history.rs) is in the graph.
use mathlib.Core.Option
use relrc.Prelude.{◌≡◌, refl, sym, ◌∙◌, inl, inr, true, none, some, arith, Option-cases, Bool-cases}
use relrc.SlotMap.{SlotMaps, SecondaryMaps}
use relrc.Object.{InnerEdgeData, Ptr, deref}
use relrc.Node.{incoming}
use relrc.World.{World}
use relrc.History
use relrc.History.{
  HistoryGraph, EdgeId, contains_edge, contains, get_node_id, contains_id, registry_id, keep_edge,
  get_edge, get_node,
}

module _ {S : SlotMaps} {T : SecondaryMaps S} {N E : Type 0} (g : HistoryGraph T)
    (w : World S N E) where
  contains-get_node_id :
      (p : Ptr) → contains g w p ≡ true → (id : S.Key) × (get_node_id g w p ≡ some id)
  unfolding contains get_node_id Option.bind
  contains-get_node_id p there = elim (Option-cases (registry_id g w p)) [
    | inl e ↦ absurd (ground arith)
    | inr (id, e) ↦ let known : contains_id g id ≡ true = ground arith in (id, rw (e, known) refl)
  ]

  keep_edge-contains :
      (d e : InnerEdgeData E) → keep_edge g w d ≡ some e → contains g w e.source ≡ true
  unfolding keep_edge
  keep_edge-contains d e kept = elim (Bool-cases (contains g w d.source)) [
    | inl there ↦ let same : keep_edge g w d ≡ some d = rw there refl in cc
    | inr missing ↦ absurd (ground arith)
  ]

  get_edge-contains :
      (e : EdgeId S) (d : InnerEdgeData E) → get_edge g w e ≡ some d → contains g w d.source ≡ true
  unfolding get_edge Option.bind
  get_edge-contains e d found = elim (Option-cases (get_node g e.target)) [
    | inl e1 ↦ absurd (ground arith)
    | inr (p, e1) ↦ elim (Option-cases (deref w.heap p)) [
      | inl e2 ↦ let nothing : get_edge g w e ≡ none = rw (e1, e2) refl in absurd (ground arith)
      | inr (inner, e2) ↦ elim (Option-cases (incoming inner e.index)) [
        | inl e3 ↦
            let nothing : get_edge g w e ≡ none = rw (e1, e2, e3) refl in absurd (ground arith)
        | inr (d', e3) ↦
            let step : get_edge g w e ≡ keep_edge g w d' = rw (e1, e2, e3) refl in
            keep_edge-contains d' d (sym step ∙ found)
      ]
    ]
  ]

  -- An edge that is in the graph has a source there.
  pub contains_edge-source :
      (e : EdgeId S) → contains_edge g w e ≡ true → (id : S.Key) × (History.source g w e ≡ some id)
  unfolding contains_edge History.source Option.bind
  contains_edge-source e there = elim (Option-cases (get_edge g w e)) [
    | inl gone ↦ absurd (ground arith)
    | inr (d, found) ↦
        let (id, known) = contains-get_node_id d.source (get_edge-contains e d found) in
        (id, rw (found, known) refl)
  ]
