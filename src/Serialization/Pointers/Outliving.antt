-- ===== src/Serialization/Pointers/Outliving.antt =====
-- The node that `RelRc::from_serialized` of src/serialization.rs returns outlives its registry.
use mathlib.Core.Option
use mathlib.Core.List.{Memᴰ}
use relrc.Prelude.{
  ℕ, ◌<◌, ◌≤◌, ◌≡◌, refl, ◌∙◌, ap, subst, inl, inr, false, none, some, List, [], ◌∷◌, ◌++◌, map,
  arith, ◌-◌, Option, ◌==◌, ==_iff, count, count-append, get_elem?, get_elem?-modify, Option-cases,
  Bool-cases,
}
use relrc.SlotMap.{SlotMaps, SecondaryMaps}
use relrc.Object.{Ptr, InnerEdgeData, strong_count, clone}
use relrc.World.{World, RegistryBox, registry_at}
use relrc.Registry.{Registry}
use relrc.Drop.{drop, each, try_register_in, node_registry}
use relrc.Counts.{IsCounted}
use relrc.Counts.Update.{IsCounted-count}
use relrc.Counts.Creating.{clone-IsCounted}
use relrc.Counts.Dropping.{each-drop-IsCounted}
use relrc.Program.Later.{made, Later-trans, clone-Later, each-drop-Later}
use relrc.Tracking.{registry_of}
use relrc.Tracking.Outliving.{holders, each-drop-holders, each-drop-Keeps}
use relrc.History.{HistoryGraph, get_node}
use relrc.Serialization.Format.{SerializedInnerData, SerializedHistoryGraph, SerializedRelRc}
use relrc.Serialization.Restoring.Restored.{IsRanked, SameEdges}
use relrc.Serialization.Restoring.Heaps.{clone-Grows, lt_of_alive}
use relrc.Serialization.Graphs.{rejected, drop_graph}
use relrc.Serialization.Graphs.Keeping.{remove_all, rejected-listed, count-rejected}
use relrc.Serialization.Graphs.Opened.{IsReadBack, IsOwner}
use relrc.Serialization.Graphs.Reading.{from_serialized-IsOwner}
use relrc.Serialization.Pointers.{from_serialized}

-- A node that is alive, and whose registry is gone: it reports none, and no registry that is alive
-- takes it.
pub record IsStale {S : SlotMaps} {N E : Type 0} (p : Ptr) (w : World S N E) : Type 0 where
  pub alive : 0 < strong_count w.heap p
  pub reports : node_registry p w ≡ (none, w)
  pub refused :
      (rp : Ptr) (r : Registry S) → registry_at w rp ≡ some r → try_register_in p rp w ≡ (none, w)

IsStale-of :
    {S : SlotMaps} {N E : Type 0} (p old : Ptr) (w : World S N E)
    → 0 < strong_count w.heap p
    → registry_of w.heap p ≡ some old
    → registry_at w old ≡ none
    → IsStale p w
unfolding node_registry try_register_in
IsStale-of p old w alive is gone = record {
  alive = alive;
  reports = rw (is, gone) refl;
  refused = λ rp r at.
      let other : (old == rp) ≡ false = elim (Bool-cases (old == rp)) [
        | inr apart ↦ apart
        | inl same ↦
            let here : registry_at w rp ≡ none =
              subst (λ rq. registry_at w rq ≡ none) ((==_iff old rp).0 same) gone in
            absurd (cc)
      ] in
      rw (is, other) refl;
}

SameEdges-values :
    {K E : Type 0} (find : K → Option Ptr) (p : Ptr) (ks : List (K × E))
    (es : List (InnerEdgeData E))
    → SameEdges find p ks es
    → map (λ e. e.value) es ≡ map (λ e. e.1) ks
SameEdges-values find p [] [] same = refl
SameEdges-values find p [] (e ∷ es) same = absurd same
SameEdges-values find p (k ∷ ks) [] same = absurd same
SameEdges-values find p ((k, x) ∷ ks) (e ∷ es) (at, value, target, same) =
    let rest = SameEdges-values find p ks es same in cc

rejected_all : (S : SlotMaps) (es : List (S.Key × Ptr)) → rejected S [] es ≡ map (λ e. e.1) es
rejected_all S [] = refl
rejected_all S ((k, p) ∷ es) = ap (λ ps. p ∷ ps) (rejected_all S es)

module _ {S : SlotMaps} (T : SecondaryMaps S) {N E : Type 0} (ser : SerializedHistoryGraph S N E)
    (roots : List Ptr) (g : HistoryGraph T) (w : World S N E) (rb : IsReadBack ser g w)
    (ow : IsOwner roots g w) (i : S.Key) (p : Ptr) (at : get_node g i ≡ some p) where
  abbrev cloned : World S N E
  unfolding clone
  cloned = record w { heap = clone p w.heap }

  abbrev handles : List Ptr
  handles = map (λ e. e.1) (T.iter Ptr g.nodes)

  -- A handle of each node of the graph is among those owned for it.
  within : (q : Ptr) → count q handles ≤ count q ow.mine
  within q =
      let es = T.iter Ptr g.nodes in
      let all = rejected_all S es in
      let once = count-rejected S [] es q (T.iter-Once Ptr g.nodes) (λ j k r at_j at_k.
        let one = ((rb.nodes j r).0 (T.get-iter Ptr g.nodes j r at_j)).1 in
        let two = ((rb.nodes k r).0 (T.get-iter Ptr g.nodes k r at_k)).1 in
        let id_one = rb.bijective.id_of j r one in let id_two = rb.bijective.id_of k r two in cc) in
      elim (Bool-cases (count q (rejected S [] es) == 0)) [
        | inl none_there ↦ subst (λ ps. count q ps ≤ count q ow.mine) all (ground arith)
        | inr some_there ↦
            let (j, listed, out) = rejected-listed S [] es q (ground arith) in
            let owned = ow.own j q (T.get-iter Ptr g.nodes j q listed) in
            subst (λ ps. count q ps ≤ count q ow.mine) all (omega arith)
      ]

  abbrev dropped : World S N E
  unfolding drop cloned
  dropped = each drop handles cloned

  still_alive : 0 < strong_count dropped.heap p
  unfolding dropped cloned
  still_alive =
      let (xs, split) = remove_all handles ow.mine within in
      let more = clone-IsCounted ow.counts p (rb.alive i p at) in
      let left = each-drop-IsCounted handles cloned (p ∷ (xs ++ roots)) (
        IsCounted-count
          (λ q. omega (
            arith,
            split q,
            count-append q handles (p ∷ (xs ++ roots)),
            count-append q xs roots,
            count-append q ow.mine roots,
          ))
          more) in
      ground (arith, left.counted p)

  still_refers : registry_of dropped.heap p ≡ some g.registry
  unfolding dropped cloned
  still_refers =
      each-drop-Keeps p handles cloned still_alive
      ∙ (clone-Grows p w.heap).registry p (rb.alive i p at)
      ∙ rb.inside i p at

  registry_gone : registry_at (drop_graph g cloned) g.registry ≡ none
  unfolding drop_graph cloned
  registry_gone =
      let last : holders (each drop handles cloned) g.registry ≡ 1 =
        each-drop-holders g.registry handles cloned ∙ ow.held in
      elim (Option-cases (get_elem? (each drop handles cloned).registries g.registry)) [
        | inl e ↦ absurd (ground arith)
        | inr (b, e) ↦ ground (
          arith,
          last,
          get_elem?-modify (each drop handles cloned).registries g.registry g.registry
              (λ (c : RegistryBox S). record c { strong = c.strong - 1 }),
        )
      ]

  stays_made : made dropped.heap p ≡ made w.heap p
  unfolding dropped cloned
  stays_made =
      let alive = rb.alive i p at in
      (Later-trans (clone-Later p w.heap alive) (each-drop-Later handles cloned)).same p
        (lt_of_alive w.heap p alive) still_alive

  outlives : IsStale p (drop_graph g cloned)
  unfolding drop_graph dropped cloned
  outlives = IsStale-of p g.registry (drop_graph g cloned) still_alive still_refers registry_gone

-- Where counts are right, the edges of the saved nodes make no cycle and come from saved nodes, and
-- each id that the graph is to have was saved, the one of the pointer among them, `RelRc::from_serialized`
-- returns a node that is alive, with the value that was saved and an edge for each that was saved,
-- with its value, in order. The registry that the node refers to is gone: `registry` of it returns `None`,
-- and `try_register_in` of it with any registry that is alive returns `None` and changes nothing.
pub from_serialized-IsStale :
    {S : SlotMaps} (T : SecondaryMaps S) {N E : Type 0} (ser : SerializedRelRc S N E)
    (w : World S N E) (roots : List Ptr) (rank : S.Key → ℕ)
    → IsCounted roots w.heap
    → IsRanked (S.get (SerializedInnerData S.Key N E) ser.ancestors_graph.registry.nodes) rank
    → ((k : S.Key)
        → Memᴰ k ser.ancestors_graph.nodes
        → (v : SerializedInnerData S.Key N E) × (S.get
              (SerializedInnerData S.Key N E)
              ser.ancestors_graph.registry.nodes
              k
            ≡ some v))
    → Memᴰ ser.id ser.ancestors_graph.nodes
    → (p : Ptr) × (w' : World S N E) × (from_serialized T ser w ≡ some (p, w'))
      × ((v : SerializedInnerData S.Key N E) × (S.get
              (SerializedInnerData S.Key N E)
              ser.ancestors_graph.registry.nodes
              ser.id
            ≡ some v)
          × (edges : List (InnerEdgeData E)) × (made w'.heap p ≡ some (v.value, edges))
          × (map (λ e. e.value) edges ≡ map (λ e. e.1) v.incoming))
      × IsStale p w'
unfolding from_serialized drop_graph Option.bind
from_serialized-IsStale {S} T ser w roots rank c ranked saved own =
    let graph = ser.ancestors_graph in
    let (g, w1, returned, rb, ow) = from_serialized-IsOwner T graph w roots rank c ranked saved in
    let (v, listed) = saved ser.id own in
    let (p, there) = rb.all_saved ser.id v listed in
    let at : get_node g ser.id ≡ some p = (rb.nodes ser.id p).1 (own, there) in
    let o = rb.read_as ser.id p there in
    (
      p,
      drop_graph g (cloned T graph roots g w1 rb ow ser.id p at),
      rw (returned, at) refl,
      (
        o.node,
        o.saved,
        o.edges,
        stays_made T graph roots g w1 rb ow ser.id p at ∙ o.made_as (rb.alive ser.id p at),
        SameEdges-values (S.get Ptr rb.registry.nodes) p o.node.incoming o.edges o.joined,
      ),
      outlives T graph roots g w1 rb ow ser.id p at,
    )
