-- ===== src/Insertion/Closing/Ancestors.antt =====
-- `insert_ancestors` of src/history.rs inserts all ancestors into a graph that has the parents of its
-- nodes.
use relrc.Prelude.{
  ℕ, zero, suc, ◌<◌, ◌≡◌, inl, inr, refl, subst, Option, some, List, [], ◌∷◌, arith, count, All,
  All-of_count, Bool-cases,
}
use mathlib.Core.Option
use relrc.SlotMap.{SlotMaps, SecondaryMaps}
use relrc.Object.{Ptr, strong_count, deref, clone}
use relrc.World.{World}
use relrc.Drop.{parents_of}
use relrc.Counts.{sources_at}
use relrc.Counts.Dropping.{parents-sources}
use relrc.Counts.Reach.{Reaches, here, up, count-le-edge_refs}
use relrc.Program.Later.{Later-refl, clone-Later}
use relrc.History.{HistoryGraph, get_node, contains}
use relrc.Insertion.{Outcome, insert_parents, insert_depth, insert_ancestors}
use relrc.Insertion.Fitting.{parents_below}
use relrc.Insertion.Holding.{In, Holds, clone-Holds, contains-In}
use relrc.Insertion.Closing.{
  Closed, sources-Later, Closes, All-at, extra_alive, In-alive, Closed-Later, Closes-trans,
  insert_self-Closes,
}

module _ {S : SlotMaps} {T : SecondaryMaps S} {N E : Type 0} where
  -- What `insert_parents` returns
  record Parents (extra : List Ptr) (g : HistoryGraph T) (w : World S N E) (ps : List Ptr)
      (result : Option (HistoryGraph T × World S N E)) : Type 0 where
    out : HistoryGraph T × World S N E
    returned : result ≡ some out
    closes : Closes extra g w out
    inside : All (λ p. In out.0 p) ps

  -- What `insert_depth` returns
  record Ancestors (extra : List Ptr) (g : HistoryGraph T) (w : World S N E) (node : Ptr)
      (result : Option (Outcome T N E S.Key)) : Type 0 where
    key : S.Key
    out : HistoryGraph T × World S N E
    returned : result ≡ some (key, out.0, out.1)
    closes : Closes extra g w out
    own : get_node out.0 key ≡ some node

  -- A call on a parent that is not in the graph yet, whose handle was cloned
  abbrev Calls : (Ptr → HistoryGraph T → World S N E → Option (Outcome T N E S.Key)) → ℕ → Type 0
  Calls call n =
      (extra mine : List Ptr) (p : Ptr) (g : HistoryGraph T) (w : World S N E)
      → p < n
      → Holds (p ∷ extra) mine g w
      → Closed g w
      → Ancestors extra g w p (call p g w)

  cloned-Closes :
      (extra mine : List Ptr) (p : Ptr) (g : HistoryGraph T) (w : World S N E)
      → 0 < strong_count w.heap p
      → Holds extra mine g w
      → Closed g w
      → Closes (p ∷ extra) g w (g, record w { heap = clone p w.heap })
  cloned-Closes extra mine p g w live o closed =
      let o' = clone-Holds extra mine g p w live o in
      let later = clone-Later p w.heap live in
      record {
        mine = mine;
        holds = o';
        closed = Closed-Later g o o' later closed;
        later = later;
        grown = λ q in_g. in_g;
      }

  insert_parents-Parents :
      (call : Ptr → HistoryGraph T → World S N E → Option (Outcome T N E S.Key)) (n : ℕ)
      → Calls call n
      → (extra mine : List Ptr) (node : Ptr) (ps : List Ptr) (g : HistoryGraph T) (w : World S N E)
      → All (λ p. p < n) ps
      → All (λ p. 0 < count p (sources_at w.heap node)) ps
      → 0 < count node extra
      → Holds extra mine g w
      → Closed g w
      → Parents extra g w ps (insert_parents call ps g w)
  unfolding insert_parents Option.bind
  insert_parents-Parents call n one extra mine node [] g w below parents own o closed = record {
    out = (g, w);
    returned = refl;
    closes = record {
      mine = mine;
      holds = o;
      closed = closed;
      later = Later-refl w.heap;
      grown = λ q in_g. in_g;
    };
    inside = tt;
  }
  insert_parents-Parents call n one extra mine node (p ∷ ps) g w (lt, below) (edge, parents) own o
        closed =
      elim (Bool-cases (contains g w p)) [
        | inl has ↦
            let rest =
              insert_parents-Parents call n one extra mine node ps g w below parents own o closed in
            rw (has, insert_parents)
              (record {
                out = rest.out;
                returned = rest.returned;
                closes = rest.closes;
                inside =
                    (rest.closes.grown p (contains-In g w p o.tracked o.graph has), rest.inside);
              })
        | inr missing ↦
            let live : 0 < strong_count w.heap p =
              omega (arith, o.counts.counted p, count-le-edge_refs w.heap p node) in
            let first = cloned-Closes extra mine p g w live o closed in
            let w1 : World S N E = record w { heap = clone p w.heap } in
            let a = one extra first.mine p g w1 lt first.holds first.closed in
            let so_far = Closes-trans first a.closes in
            let here = extra_alive node o own in
            let still = sources-Later node so_far.later here (extra_alive node so_far.holds own) in
            let rest =
              insert_parents-Parents call n one extra so_far.mine node ps a.out.0 a.out.1 below
                (rw still parents) own so_far.holds so_far.closed in
            rw (missing, insert_parents, a.returned)
              (record {
                out = rest.out;
                returned = rest.returned;
                closes = Closes-trans so_far rest.closes;
                inside = (rest.closes.grown p (a.key, a.own), rest.inside);
              })
      ]

  insert_depth-Ancestors : (depth : ℕ) → Calls (insert_depth depth) depth
  unfolding insert_depth Option.bind
  insert_depth-Ancestors zero extra mine node g w enough o closed = absurd (omega arith)
  insert_depth-Ancestors (suc depth) extra mine node g w enough o closed =
      let is = parents-sources node o.counts in
      let listed : All (λ p. 0 < count p (sources_at w.heap node)) (sources_at w.heap node) =
        All-of_count (sources_at w.heap node) (λ p there. there) in
      let rest =
        insert_parents-Parents (insert_depth depth) depth (insert_depth-Ancestors depth)
          (node ∷ extra) mine node (parents_of (deref w.heap node)) g w
          (parents_below g.registry w o.fits node depth enough) (rw is listed) (ground arith) o
          closed in
      let live = extra_alive node o (ground arith) in
      let live' = extra_alive node rest.closes.holds (ground arith) in
      let kept = sources-Later node rest.closes.later live live' in
      let (key, out, returned, closes, own) =
        insert_self-Closes extra rest.closes.mine node rest.out.0 rest.out.1 rest.closes.holds
          rest.closes.closed
          (λ r edge.
            All-at (λ p. In rest.out.0 p) (sources_at w.heap node) r
              (subst (λ ps. All (λ p. In rest.out.0 p) ps) is rest.inside) (rw kept at edge)) in
      record {
        key = key;
        out = out;
        returned = rw rest.returned returned;
        closes = Closes-trans rest.closes closes;
        own = own;
      }

  -- With its parents a closed graph that came of `g` has the ancestors that each node had.
  Closes-Reaches :
      {extra mine extra' : List Ptr} {g : HistoryGraph T} {w : World S N E}
      {out : HistoryGraph T × World S N E} (node q : Ptr)
      → Holds extra mine g w
      → Closes extra' g w out
      → 0 < strong_count w.heap node
      → In out.0 node
      → Reaches w.heap node q
      → In out.0 q × (0 < strong_count w.heap q)
  Closes-Reaches node q o c live there here = (there, live)
  Closes-Reaches {w} node q o c live there (up {q = below} path edge) =
      let (in_g, before) = Closes-Reaches node below o c live there path in
      let same = sources-Later below c.later before (In-alive below c.holds in_g) in
      (
        c.closed below q in_g (rw same edge),
        omega (arith, o.counts.counted q, count-le-edge_refs w.heap q below),
      )

-- Where counts and registries are right, no node is in another registry, the graph owns a handle of each
-- of its nodes, and the parents of its nodes are in it, `insert_ancestors` returns: the graph then has the
-- node under the id that is returned, and each of its ancestors, with all that it had, and still has the
-- parents of its nodes; counts and registries are right again.
pub insert_ancestors-Closes :
    {S : SlotMaps} {T : SecondaryMaps S} {N E : Type 0} (extra mine : List Ptr) (node : Ptr)
    (g : HistoryGraph T) (w : World S N E)
    → Holds (node ∷ extra) mine g w
    → Closed g w
    → (id : S.Key) × (g' : HistoryGraph T) × (w' : World S N E) × (insert_ancestors node g w
        ≡ some (id, g', w'))
      × (get_node g' id ≡ some node)
      × ((q : Ptr) → Reaches w.heap node q → In g' q)
      × Closes extra g w (g', w')
unfolding insert_ancestors
insert_ancestors-Closes extra mine node g w o closed =
    let a = insert_depth-Ancestors (suc node) extra mine node g w (omega arith) o closed in
    (
      a.key,
      a.out.0,
      a.out.1,
      a.returned,
      a.own,
      λ q path.
          (Closes-Reaches node q o a.closes (extra_alive node o (ground arith)) (a.key, a.own)
            path).0,
      a.closes,
    )
