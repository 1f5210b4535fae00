-- ===== src/Serialization/Graphs/Copying.antt =====
-- `HistoryGraph::from_serialized` after `HistoryGraph::to_serialized` (src/serialization.rs).
use mathlib.Core.List.{Memᴰ}
use relrc.Prelude.{◌≡◌, ◌↔◌, refl, sym, ◌∙◌, subst, some, List, arith, All, All-zip}
use relrc.SlotMap.{SlotMaps, SecondaryMaps}
use relrc.Object.{Ptr}
use relrc.World.{World, registry_at}
use relrc.Registry.{Registry}
use relrc.Registry.Bijection.{Bijective}
use relrc.Counts.{IsCounted}
use relrc.History.{HistoryGraph, get_node, all_node_ids}
use relrc.Tracking.{registry_of}
use relrc.Serialization.Format.{SerializedInnerData, SerializedHistoryGraph}
use relrc.Serialization.Restoring.Restored.{IsRanked, SameEdges}
use relrc.Serialization.Saving.Copying.{Copy, CopiedEdges_of, made_of_deref, rank, ranked}
use relrc.Serialization.Saving.Returning.{to_serialized-Saved}
use relrc.Serialization.Graphs.{to_serialized, from_serialized}
use relrc.Serialization.Graphs.Opened.{IsReadBack}
use relrc.Serialization.Graphs.Reading.{from_serialized-IsReadBack}
use relrc.Serialization.Graphs.Writing.{Extends, IsWritten, to_serialized-IsWritten}

-- Graph `g'` in memory `w'` against graph `g` in memory `w`, whose registry is `r`
pub record IsCopied {S : SlotMaps} {T : SecondaryMaps S} {N E : Type 0} (g : HistoryGraph T)
    (w : World S N E) (r : Registry S) (g' : HistoryGraph T) (w' : World S N E) : Type 0 where
  pub old : Registry S
  pub extends : Extends r old
  pub new : Registry S
  pub present : registry_at w' g'.registry ≡ some new
  pub bijective : Bijective new
  pub nodes : (i : S.Key) → Memᴰ i (all_node_ids g) ↔ ((q : Ptr) × (get_node g' i ≡ some q))
  pub copies :
      (i : S.Key) (p : Ptr)
      → get_node g i ≡ some p
      → (c : Copy old w.heap w'.heap (S.get Ptr new.nodes) i p) × (get_node g' i ≡ some c.node)
        × (registry_of w'.heap c.node ≡ some g'.registry)

module _ {S : SlotMaps} {T : SecondaryMaps S} {N E : Type 0} (g : HistoryGraph T) (w : World S N E)
    (r : Registry S) (ser : SerializedHistoryGraph S N E) (g' : HistoryGraph T) (w' : World S N E)
    (wr : IsWritten g w r ser) (rb : IsReadBack ser g' w') where
  abbrev Ser : Type 0
  Ser = SerializedInnerData S.Key N E

  graph_node :
      (i : S.Key) (p : Ptr)
      → get_node g i ≡ some p
      → S.get Ptr r.nodes i ≡ some p
      → (c : Copy wr.registry w.heap w'.heap (S.get Ptr rb.registry.nodes) i p) × (get_node g' i
          ≡ some c.node)
        × (registry_of w'.heap c.node ≡ some g'.registry)
  graph_node i p at listed =
      let there = T.get-keys Ptr g.nodes i p at in
      let (p', at', same) = wr.nodes i there in
      let s =
        to_serialized-Saved wr.registry w.heap wr.whole wr.returned i p
          (wr.extends.keeps i p listed) in
      let (q, found) = rb.all_saved i _ (same ∙ s.listed) in
      let o = rb.read_as i q found in
      let is : o.node ≡ record { value = s.inner.value; incoming = s.edges } =
        ground (arith, s.listed, o.saved) in
      let inside : get_node g' i ≡ some q =
        (rb.nodes i q).1 (subst (λ js. Memᴰ i js) (sym wr.ids) there, found) in
      let alive = rb.alive i q inside in
      (
        record {
          node = q;
          at = found;
          alive = alive;
          value = s.inner.value;
          old_edges = s.inner.incoming;
          new_edges = o.edges;
          was = (made_of_deref w.heap p s.inner s.alive).0;
          is = o.made_as alive ∙ rw is refl;
          edges =
              CopiedEdges_of wr.registry (S.get Ptr rb.registry.nodes) q s.edges s.inner.incoming
                o.edges s.same
                (subst (λ n. SameEdges (S.get Ptr rb.registry.nodes) q n.incoming o.edges) is
                  o.joined);
        },
        inside,
        rb.inside i q inside,
      )

-- Where counts and registry are right and the registry lists the nodes of a graph, and the parents of
-- each node that `to_serialized` saved are saved too, `from_serialized` returns in any memory where
-- counts are right. The graph that it returns has the same ids. Its registry is shared, its two maps
-- agree, and under each id of the graph stands an alive node of this registry, with the value of the old node
-- and its edges in order, from the nodes with the ids of the old parents.
pub from_serialized-IsCopied :
    {S : SlotMaps} (T : SecondaryMaps S) {N E : Type 0} (g : HistoryGraph T) (w : World S N E)
    (r : Registry S) (roots : List Ptr) (ser : SerializedHistoryGraph S N E) (w2 : World S N E)
    (roots2 : List Ptr)
    → IsCounted roots w.heap
    → registry_at w g.registry ≡ some r
    → Bijective r
    → ((i : S.Key) (p : Ptr) → get_node g i ≡ some p → S.get Ptr r.nodes i ≡ some p)
    → to_serialized g w ≡ some ser
    → ((i : S.Key) (v : SerializedInnerData S.Key N E)
        → S.get (SerializedInnerData S.Key N E) ser.registry.nodes i ≡ some v
        → All
            (λ e.
              (u : SerializedInnerData S.Key N E) × (S.get
                  (SerializedInnerData S.Key N E)
                  ser.registry.nodes
                  e.0
                ≡ some u))
            v.incoming)
    → IsCounted roots2 w2.heap
    → (g' : HistoryGraph T) × (w' : World S N E) × (from_serialized T ser w2 ≡ some (g', w'))
      × IsCopied g w r g' w'
from_serialized-IsCopied {S} T {N} {E} g w r roots ser w2 roots2 c present b known saved closed c2 =
    let Ser = SerializedInnerData S.Key N E in
    let wr = to_serialized-IsWritten g w r present b ser saved in
    let b' = wr.extends.bijective in
    let lower = ranked wr.registry w.heap c b' wr.whole wr.returned in
    let rank' = rank wr.registry w.heap c b' wr.whole wr.returned in
    let below : IsRanked (S.get Ser ser.registry.nodes) rank' = λ i v e.
      All-zip v.incoming (λ x (_, _, lt) (u, at). (u, at, lt)) (lower i v (wr.taken i v e))
        (closed i v e) in
    let all : (i : S.Key)
        → Memᴰ i ser.nodes
        → (v : Ser) × (S.get Ser ser.registry.nodes i ≡ some v) =
      λ i there.
        let (p, at, same) = wr.nodes i (subst (λ js. Memᴰ i js) wr.ids there) in
        let s = to_serialized-Saved wr.registry w.heap wr.whole wr.returned i p at in
        (_, same ∙ s.listed) in
    let (g', w', returned, rb) = from_serialized-IsReadBack T ser w2 roots2 rank' c2 below all in
    (
      g',
      w',
      returned,
      record {
        old = wr.registry;
        extends = wr.extends;
        new = rb.registry;
        present = rb.present;
        bijective = rb.bijective;
        nodes = λ i. (
          λ there.
              let here = subst (λ js. Memᴰ i js) (sym wr.ids) there in
              let (v, listed) = all i here in
              let (q, at) = rb.all_saved i v listed in (q, (rb.nodes i q).1 (here, at)),
          λ (q, at). subst (λ js. Memᴰ i js) wr.ids ((rb.nodes i q).0 at).0,
        );
        copies = λ i p at. graph_node g w r ser g' w' wr rb i p at (known i p at);
      },
    )
