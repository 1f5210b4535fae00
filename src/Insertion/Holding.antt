-- ===== src/Insertion/Holding.antt =====
-- A graph of src/history.rs that owns the handles to its nodes, and what `insert_node` makes of it.
pub mod Inserting
use relrc.Prelude.{
  ℕ, ◌+◌, ◌<◌, ◌≡◌, ◌⊎◌, ◌≢◌, inl, inr, refl, ap, sym, subst, ◌∙◌, ◌==◌, ==_iff, true, false,
  Option, none, some, List, [], ◌∷◌, ◌++◌, arith, ltb, count, count-append, get_elem?, modify,
  get_elem?-modify, Option-cases, Bool-cases,
}
use mathlib.Core.Option
use relrc.SlotMap.{SlotMaps, SecondaryMaps}
use relrc.Object.{Ptr, Heap, strong_count, clone, increment, decrement, over_inner}
use relrc.World.{World}
use relrc.Drop.{drop, release, try_register_in, set_registry}
use relrc.Counts.{IsCounted}
use relrc.Counts.Update.{IsCounted-keep, IsCounted-count}
use relrc.Counts.Creating.{clone-IsCounted}
use relrc.Counts.Dropping.{drop-IsCounted}
use relrc.Tracking.{IsTracked, registry_of}
use relrc.Tracking.Freeing.{drop-IsTracked}
use relrc.Program.Later.{
  Later, clone-Later, drop-Later, try_register_in-heap, try_register_in-Later,
}
use relrc.Registry.{get_id}
use relrc.History.{HistoryGraph, get_node, get_node_id, registry_id, contains_id, contains}
use relrc.Insertion.{insert_node, known_or, finish, put_node, Outcome}
use relrc.Insertion.Adding.{IsGraph, insert_node-adds}
use relrc.Insertion.Fitting.{Fits, increment-Fits, drop-Fits, own-registry_of}
use relrc.Insertion.Returning.{Registered, try_register_in-Registered}

-- The node is in the graph.
abbrev pub In : {S : SlotMaps} {T : SecondaryMaps S} → HistoryGraph T → Ptr → Type 0
In {S} g q = (id : S.Key) × (get_node g id ≡ some q)

-- Counts and registries are right, and of the handles `mine` the graph owns one to each of its nodes;
-- the program owns the handles `extra`.
pub record Holds {S : SlotMaps} {T : SecondaryMaps S} {N E : Type 0} (extra mine : List Ptr)
    (g : HistoryGraph T) (w : World S N E) : Type 0 where
  pub counts : IsCounted (extra ++ mine) w.heap
  pub tracked : IsTracked w
  pub graph : IsGraph g w
  pub fits : Fits g.registry w
  pub owned : (id : S.Key) (p : Ptr) → get_node g id ≡ some p → 0 < count p mine

registry_of-increment :
    {N E : Type 0} (h : Heap N E) (p q : Ptr)
    → 0 < strong_count h p
    → registry_of (modify h p increment) q ≡ registry_of h q
registry_of-increment h p q alive = elim (Option-cases (get_elem? h q)) [
  | inl e ↦ ground (arith, get_elem?-modify h p q increment)
  | inr (b, e) ↦ ground (arith, get_elem?-modify h p q increment)
]

-- A handle that is not the last is dropped.
drop_more :
    {S : SlotMaps} {N E : Type 0} (p : Ptr) (w : World S N E)
    → 1 < strong_count w.heap p
    → drop p w ≡ record w { heap = modify w.heap p decrement }
unfolding drop release
drop_more p w more =
    let test : ltb 1 (strong_count w.heap p) ≡ true = ground arith in rw (test, release) refl

module _ {S : SlotMaps} {T : SecondaryMaps S} {N E : Type 0} (extra mine : List Ptr)
    (g : HistoryGraph T) where
  pub clone-Holds :
      (p : Ptr) (w : World S N E)
      → 0 < strong_count w.heap p
      → Holds extra mine g w
      → Holds (p ∷ extra) mine g (record w { heap = clone p w.heap })
  unfolding clone
  clone-Holds p w alive o = record {
    counts = clone-IsCounted o.counts p alive;
    tracked = record {
      bijective = o.tracked.bijective;
      tracked = λ rp r id q at got.
          registry_of-increment w.heap p q alive ∙ o.tracked.tracked rp r id q at got;
    };
    graph = record {
      registry = o.graph.registry;
      present = o.graph.present;
      listed = o.graph.listed;
    };
    fits = increment-Fits g.registry w p o.fits;
    owned = o.owned;
  }

  pub drop-Holds :
      (p : Ptr) (w : World S N E)
      → 0 < count p mine
      → Holds (p ∷ extra) mine g w
      → Holds extra mine g (drop p w)
  drop-Holds p w own o =
      let more : 1 < strong_count w.heap p =
        ground (arith, o.counts.counted p, count-append p extra mine) in
      let kept : IsGraph g (record w { heap = modify w.heap p decrement }) = record {
        registry = o.graph.registry;
        present = o.graph.present;
        listed = o.graph.listed;
      } in
      record {
        counts = drop-IsCounted p w (extra ++ mine) o.counts;
        tracked = drop-IsTracked p w o.tracked;
        graph = subst (IsGraph g) (sym (drop_more p w more)) kept;
        fits = drop-Fits g.registry p w o.fits;
        owned = o.owned;
      }

module _ {S : SlotMaps} {T : SecondaryMaps S} {N E : Type 0} (g : HistoryGraph T) (w : World S N E)
    (p : Ptr) (t : IsTracked w) (graph : IsGraph g w) where
  -- An id of the graph under which its registry knows a node is the node's in the graph too.
  registry_id-In :
      (id : S.Key) → registry_id g w p ≡ some id → contains_id g id ≡ true → get_node g id ≡ some p
  unfolding Option.bind get_id
  registry_id-In id known has =
      let r = graph.registry in
      let at = (t.bijective g.registry r graph.present).ptr_of id p (rw graph.present at known) in
      elim (Option-cases (get_node g id)) [
        | inl gone ↦ absurd (ground arith)
        | inr (q, found) ↦
            let listed = graph.listed id q found in
            let same : q ≡ p = cc in found ∙ ap (λ a. some a) same
      ]

  pub known_In : (id : S.Key) → get_node_id g w p ≡ some id → get_node g id ≡ some p
  unfolding get_node_id Option.bind
  known_In id known = elim (Option-cases (registry_id g w p)) [
    | inl gone ↦ absurd (ground arith)
    | inr (j, e) ↦ elim (Bool-cases (contains_id g j)) [
      | inl has ↦
          let same : j ≡ id = ground arith in
          subst (λ i. get_node g i ≡ some p) same (registry_id-In j e has)
      | inr lacks ↦ absurd (ground arith)
    ]
  ]

  pub contains-In : contains g w p ≡ true → In g p
  unfolding contains
  contains-In has = elim (Option-cases (registry_id g w p)) [
    | inl gone ↦ absurd (ground arith)
    | inr (j, e) ↦ (j, registry_id-In j e (ground arith))
  ]
