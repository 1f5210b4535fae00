-- ===== src/Insertion/Holding/Inserting.antt =====
-- What `insert_node` of src/history.rs makes of a graph that owns the handles to its nodes.
use relrc.Prelude.{
  ◌<◌, ◌≡◌, ◌⊎◌, inl, inr, refl, ap, ◌∙◌, ==_iff, Option, none, some, List, ◌∷◌, ◌++◌, arith,
  count-append, Option-cases,
}
use relrc.SlotMap.{SlotMaps, SecondaryMaps}
use relrc.Object.{Ptr, strong_count, over_inner}
use relrc.World.{World}
use relrc.Drop.{try_register_in, set_registry}
use relrc.Counts.{IsCounted}
use relrc.Counts.Update.{IsCounted-keep, IsCounted-count}
use relrc.Tracking.{registry_of}
use relrc.Program.Later.{Later, drop-Later, try_register_in-heap, try_register_in-Later}
use relrc.History.{HistoryGraph, get_node, get_node_id}
use relrc.Insertion.{insert_node, known_or, finish, put_node, Outcome}
use relrc.Insertion.Adding.{insert_node-adds}
use relrc.Insertion.Fitting.{own-registry_of}
use relrc.Insertion.Returning.{try_register_in-Registered}
use relrc.Insertion.Holding.{In, Holds, drop-Holds, known_In}

-- What `insert_node` leaves: the graph has the node, whatever it had, and nothing else.
pub record Added {S : SlotMaps} {T : SecondaryMaps S} {N E : Type 0} (extra : List Ptr)
    (g : HistoryGraph T) (w : World S N E) (node : Ptr) (out : Outcome T N E (Option S.Key))
    : Type 0 where
  pub key : S.Key
  pub returned : out.0 ≡ some key
  pub mine : List Ptr
  pub holds : Holds extra mine out.1 out.2
  pub later : Later w.heap out.2.heap
  pub same : out.1.registry ≡ g.registry
  pub own : get_node out.1 key ≡ some node
  pub grown : (q : Ptr) → In g q → In out.1 q
  pub only : (q : Ptr) → In out.1 q → (q ≡ node) ⊎ In g q

module _ {S : SlotMaps} {T : SecondaryMaps S} {N E : Type 0} (extra mine : List Ptr)
    (g : HistoryGraph T) (w : World S N E) (node : Ptr) (o : Holds (node ∷ extra) mine g w) where
  insert_known :
      (id : S.Key) → get_node_id g w node ≡ some id → Added extra g w node (insert_node node g w)
  unfolding insert_node known_or
  insert_known id known =
      let there = known_In g w node o.tracked o.graph id known in
      rw (known, known_or)
        (record {
          key = id;
          returned = refl;
          mine = mine;
          holds = drop-Holds extra mine g node w (o.owned id node there) o;
          later = drop-Later node w;
          same = refl;
          own = there;
          grown = λ q in_g. in_g;
          only = λ q in_g. inr in_g;
        })

  finish_registered :
      (out : Option S.Key × World S N E) (key : S.Key)
      → out.0 ≡ some key
      → finish g node out ≡ (some key, put_node g key node, out.1)
  unfolding finish
  finish_registered (none, v) key returned = cc
  finish_registered (some id, v) key returned =
      let same : id ≡ key = cc in ap (λ (i : S.Key). (some i, put_node g i node, v)) same

  -- Registering changes no count and no edge.
  registered-IsCounted :
      (roots : List Ptr)
      → IsCounted roots w.heap
      → IsCounted roots (try_register_in node g.registry w).1.heap
  registered-IsCounted roots c = elim (try_register_in-heap node g.registry w) [
    | inl e ↦ rw e c
    | inr e ↦
        rw e
          (IsCounted-keep c node (over_inner (set_registry (some g.registry))) (λ b. (refl, refl)))
  ]

  unregistered : (registry_of w.heap node ≡ none) ⊎ (registry_of w.heap node ≡ some g.registry)
  unregistered = elim (Option-cases (registry_of w.heap node)) [
    | inl e ↦ inl e
    | inr (q, e) ↦
        let same : q ≡ g.registry =
          (==_iff q g.registry).0 (own-registry_of g.registry w node q o.fits e) in
        inr (e ∙ ap (λ r. some r) same)
  ]

  insert_result :
      (key : S.Key)
      → (try_register_in node g.registry w).0 ≡ some key
      → get_node_id g w node ≡ none
      → insert_node node g w
        ≡ (some key, put_node g key node, (try_register_in node g.registry w).1)
  unfolding insert_node known_or
  insert_result key returned unknown =
      rw (unknown, known_or) (finish_registered (try_register_in node g.registry w) key returned)

  insert_unknown : get_node_id g w node ≡ none → Added extra g w node (insert_node node g w)
  insert_unknown unknown =
      let live : 0 < strong_count w.heap node = ground (arith, o.counts.counted node) in
      let r = try_register_in-Registered node g.registry w o.fits in
      let eq = insert_result r.key r.returned unknown in
      let (id, returned, at, idd, keeps, only, graph, tracked) =
        insert_node-adds node g w o.tracked o.graph live unregistered unknown in
      record {
        key = id;
        returned = returned;
        mine = node ∷ mine;
        holds = record {
          counts = rw eq (
              IsCounted-count
                (λ q. omega (arith, count-append q extra (node ∷ mine), count-append q extra mine))
                (registered-IsCounted (node ∷ (extra ++ mine)) o.counts));
          tracked = tracked;
          graph = graph;
          fits = rw eq r.fits;
          owned = λ j q there. elim (only j q there) [
            | inl is ↦ ground (arith, ==_iff q node)
            | inr old ↦ omega (arith, o.owned j q old)
          ];
        };
        later = rw eq (try_register_in-Later node g.registry w);
        same = rw eq refl;
        own = at;
        grown = λ q (j, there). (j, keeps j q there);
        only = λ q (j, there). elim (only j q there) [ inl is ↦ inl is | inr old ↦ inr (j, old) ];
      }

  pub insert_node-Added : Added extra g w node (insert_node node g w)
  insert_node-Added = elim (Option-cases (get_node_id g w node)) [
    | inl unknown ↦ insert_unknown unknown
    | inr (id, known) ↦ insert_known id known
  ]
