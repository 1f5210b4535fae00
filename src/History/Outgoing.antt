-- ===== src/History/Outgoing.antt =====
-- `outgoing_edges` of src/history.rs against `source`.
pub mod Members
use mathlib.Core.Option
use mathlib.Core.List.{Memᴰ}
use mathlib.Core.List.Memᴰ
use relrc.Prelude.{
  ℕ, zero, suc, ◌<◌, ◌+◌, ◌≡◌, ◌↔◌, refl, sym, ap, ◌∙◌, subst, inl, inr, Option, none, some, List,
  [], ◌∷◌, ◌++◌, map, arith, ◌==◌, ==_iff, ◌&&◌, if◌then◌else◌, get_elem?, count, count-append,
  Option-cases, Bool-cases, true, false,
}
use relrc.SlotMap.{SlotMaps, SecondaryMaps}
use relrc.Object.{Ptr, Edge, InnerData, InnerEdgeData, Heap, deref, strong_count, sources}
use relrc.World.{World, registry_at}
use relrc.Registry.{Registry, get_id}
use relrc.Registry.Bijection.{Bijective}
use relrc.Node.{all_outgoing}
use relrc.Counts.{IsCounted, sources_at}
use relrc.Links.{IsLinked, starts_at}
use relrc.Links.Raising.{edge_count}
use relrc.Links.Outgoing.{all_outgoing-edges}
use relrc.History.Outgoing.Members.{filter_some_iff, edge_count_iff, get_elem?-sources, deref_alive}
use relrc.History.{
  HistoryGraph, EdgeId, filter_some, get_node, get_node_id, contains, get_edge, source, edge_id,
  outgoing_edges,
}
use relrc.Serialization.Saving.Copying.{made_of_deref}

module _ {S : SlotMaps} {T : SecondaryMaps S} {N E : Type 0} (g : HistoryGraph T) (w : World S N E)
    (r : Registry S) (present : registry_at w g.registry ≡ some r) (b : Bijective r)
    (listed : (i : S.Key) (p : Ptr) → get_node g i ≡ some p → S.get Ptr r.nodes i ≡ some p) where
  get_node_id_iff : (p : Ptr) (i : S.Key) → (get_node_id g w p ≡ some i) ↔ (get_node g i ≡ some p)
  unfolding get_node_id Option.bind get_id
  get_node_id_iff p i = (
    λ known. elim (Option-cases (r.ptr_to_id p)) [
      | inl gone ↦ absurd (ground arith)
      | inr (j, e) ↦ elim (Option-cases (get_node g j)) [
        | inl out ↦ absurd (ground arith)
        | inr (q, at) ↦
            let same : j ≡ i = ground arith in
            let first = b.ptr_of j p e in
            let second = listed j q at in
            let is : q ≡ p = ground arith in
            subst (λ k. get_node g k ≡ some p) same (at ∙ ap (λ n. some n) is)
      ]
    ],
    λ at. let id = b.id_of i p (listed i p at) in ground arith,
  )

  edge_id_iff :
      (h : Heap N E) (x : Edge) (e : EdgeId S)
      → (edge_id g (record w { heap = h }) x ≡ some e)
        ↔ ((get_node g e.target ≡ some x.target) × (e.index ≡ x.index))
  unfolding edge_id get_node_id
  edge_id_iff h x e = (
    λ known. elim (Option-cases (get_node_id g w x.target)) [
      | inl gone ↦ absurd (ground arith)
      | inr (j, is) ↦
          let made : Option (EdgeId S) = some (record { target = j; index = x.index }) in
          let same : made ≡ some e = ground arith in
          let target_is : j ≡ e.target = ground arith in
          ((get_node_id_iff x.target e.target).0 (is ∙ ap (λ k. some k) target_is), ground arith)
    ],
    λ (there, index_is).
        let is = (get_node_id_iff x.target e.target).1 there in
        rw (edge_id, is) (ap (λ n. some (record { target = e.target; index = n })) (sym index_is)),
  )

  -- An edge from the node with id `id`, found from its target
  abbrev From : S.Key → EdgeId S → Type 0
  From id e =
      (t : Ptr) × (inner : InnerData N E) × (edge : InnerEdgeData E) × (get_node g e.target
        ≡ some t)
      × (deref w.heap t ≡ some inner)
      × (get_elem? inner.incoming e.index ≡ some edge)
      × (get_node g id ≡ some edge.source)

  source-From : (id : S.Key) (e : EdgeId S) → source g w e ≡ some id → From id e
  unfolding source get_edge Option.bind
  source-From id e at = elim (Option-cases (get_node g e.target)) [
    | inl gone ↦ absurd (ground arith)
    | inr (t, there) ↦ elim (Option-cases (deref w.heap t)) [
      | inl dead ↦ absurd (ground arith)
      | inr (inner, alive) ↦ elim (Option-cases (get_elem? inner.incoming e.index)) [
        | inl none_there ↦ absurd (ground arith)
        | inr (edge, is) ↦ elim (Bool-cases (contains g w edge.source)) [
          | inl known ↦
              let id_at : get_node_id g w edge.source ≡ some id = ground arith in
              (t, inner, edge, there, alive, is, (get_node_id_iff edge.source id).0 id_at)
          | inr unknown ↦ absurd (ground arith)
        ]
      ]
    ]
  ]

  contains_node : (p : Ptr) (i : S.Key) → get_node g i ≡ some p → contains g w p ≡ true
  unfolding contains Option.bind get_id
  contains_node p i at = let id = b.id_of i p (listed i p at) in ground arith

  From-source : (id : S.Key) (e : EdgeId S) → From id e → source g w e ≡ some id
  unfolding source get_edge Option.bind
  From-source id e (t, inner, edge, there, alive, is, at) =
      let known = contains_node edge.source id at in
      let id_at = (get_node_id_iff edge.source id).1 at in rw (there, alive, is, known) id_at

  module _ (l : IsLinked w.heap)
      (alive : (i : S.Key) (p : Ptr) → get_node g i ≡ some p → 0 < strong_count w.heap p)
      (id : S.Key) (p : Ptr) (at : get_node g id ≡ some p) (e : EdgeId S) where
    -- `all_outgoing` of the node returns the edges from it, and no other.
    outgoing-From :
        (t : Ptr)
        → get_node g e.target ≡ some t
        → Memᴰ (record { index = e.index; target = t }) (all_outgoing p w.heap).0 ↔ From id e
    outgoing-From t there =
        let live = alive e.target t there in
        let (inner, found) = deref_alive w.heap t live in
        let counts : edge_count e.index t (all_outgoing p w.heap).0
            ≡ starts_at p (Option.map (λ d. d.source) (get_elem? inner.incoming e.index)) =
          all_outgoing-edges p w.heap t e.index l (alive id p at)
          ∙ ground (
            arith,
            (made_of_deref w.heap t inner found).1,
            get_elem?-sources inner.incoming e.index,
          ) in
        let member = edge_count_iff e.index t (all_outgoing p w.heap).0 in
        (
          λ out. elim (Option-cases (get_elem? inner.incoming e.index)) [
            | inl gone ↦ absurd (ground (arith, counts, member.1 out))
            | inr (edge, is) ↦
                let same : p ≡ edge.source =
                  ground (arith, counts, member.1 out, ==_iff p edge.source) in
                (t, inner, edge, there, found, is, at ∙ ap (λ n. some n) same)
          ],
          λ (t', inner', edge, there', found', is, from).
              let one : t' ≡ t = ground arith in
              let found_t = subst (λ n. deref w.heap n ≡ some inner') one found' in
              let same_inner : inner' ≡ inner = ground arith in
              let is_t =
                subst (λ (d : InnerData N E). get_elem? d.incoming e.index ≡ some edge) same_inner
                  is in
              let same : p ≡ edge.source = ground arith in
              let once : edge_count e.index t (all_outgoing p w.heap).0 ≡ 1 =
                counts ∙ rw is_t (ground (arith, ==_iff p edge.source)) in
              member.0 (omega (arith, once)),
        )

  -- Where the registry of a graph agrees with itself and lists the graph's nodes, these are alive and
  -- the lists of outgoing edges are right, `outgoing_edges` of an id returns exactly the edges whose
  -- `source` is that id: whose target is in the graph, at a position where an edge from the node stands.
  pub outgoing_edges-source :
      IsLinked w.heap
      → ((i : S.Key) (p : Ptr) → get_node g i ≡ some p → 0 < strong_count w.heap p)
      → (id : S.Key) (e : EdgeId S) → Memᴰ e (outgoing_edges g w id).0 ↔ (source g w e ≡ some id)
  unfolding outgoing_edges edge_id
  outgoing_edges-source l alive id e = elim (Option-cases (get_node g id)) [
    | inl gone ↦ (
      λ there.
          let is : (outgoing_edges g w id).0 ≡ [] = rw (outgoing_edges, gone) refl in
          absurd (Memᴰ.not-nil (subst (λ es. Memᴰ e es) is there)),
      λ from.
          let (t, inner, edge, there, found, is, at) = source-From id e from in
          absurd (ground arith),
    )
    | inr (p, at) ↦
        let made = all_outgoing p w.heap in
        let w' = record w { heap = made.1 } in
        let is : (outgoing_edges g w id).0 ≡ filter_some (edge_id g w') made.0 =
          rw (outgoing_edges, at) refl in
        let iff = filter_some_iff (edge_id g w') made.0 e in
        (
          λ there.
              let (edge, listed_edge, known) = iff.0 (subst (λ es. Memᴰ e es) is there) in
              let (target_at, index_at) = (edge_id_iff made.1 edge e).0 known in
              let same : edge ≡ record { index = e.index; target = edge.target } =
                ap (λ n. record { index = n; target = edge.target }) (sym index_at) in
              let from =
                (outgoing-From l alive id p at e edge.target target_at).0
                  (subst (λ d. Memᴰ d made.0) same listed_edge) in
              From-source id e from,
          λ from.
              let f = source-From id e from in
              let t = f.0 in
              let there : get_node g e.target ≡ some t = f.3 in
              let member = (outgoing-From l alive id p at e t there).1 f in
              let edge : Edge = record { index = e.index; target = t } in
              subst (λ es. Memᴰ e es) (sym is)
                (iff.1 (edge, member, (edge_id_iff made.1 edge e).1 (there, refl))),
        )
  ]
