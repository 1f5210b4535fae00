-- ===== src/Insertion/Adding.antt =====
-- `insert_node` of src/history.rs with a node that is not in the graph yet.
use relrc.Prelude.{
  ◌<◌, ◌≡◌, ◌⊎◌, inl, inr, refl, ap, sym, ◌∙◌, subst, ◌==◌, ==_iff, none, some, arith, Option-cases,
  Bool-cases,
}
use relrc.SlotMap.{SlotMaps, SecondaryMaps}
use relrc.SlotMap.Inserting.{get-insert_alone}
use relrc.Object.{Ptr, strong_count}
use mathlib.Core.Option
use relrc.Registry.{Registry, add_node, get_id}
use relrc.Registry.Bijection.{add_node-get_id, add_node_keeps, add_node-fresh, add_node-known}
use relrc.World.{World, registry_at, put_registry}
use relrc.Drop.{try_register_in}
use relrc.Tracking.{IsTracked, registry_of, registry_at-put}
use relrc.Tracking.Registering.{registers-eq, try_register_in-IsTracked}
use relrc.History.{HistoryGraph, get_node, get_node_id}
use relrc.Insertion.{insert_node, known_or, finish, put_node}

-- The ids of a graph are the ids that its registry gave to its nodes.
pub record IsGraph {S : SlotMaps} {T : SecondaryMaps S} {N E : Type 0} (g : HistoryGraph T)
    (w : World S N E) : Type 0 where
  pub registry : Registry S
  pub present : registry_at w g.registry ≡ some registry
  pub listed :
      (id : S.Key) (p : Ptr) → get_node g id ≡ some p → S.get Ptr registry.nodes id ≡ some p

module _ {S : SlotMaps} {T : SecondaryMaps S} (g : HistoryGraph T) (s : Registry S) (node : Ptr)
    (key : S.Key)
    (listed : (id : S.Key) (p : Ptr) → get_node g id ≡ some p → S.get Ptr s.nodes id ≡ some p)
    (own : S.get Ptr s.nodes key ≡ some node) where
  -- No other id of the graph has the slot of the new node's id.
  alone : (j : S.Key) (p : Ptr) → get_node g j ≡ some p → S.slot j ≡ S.slot key → j ≡ key
  alone j p there slot = S.slot-eq Ptr s.nodes j key p node (listed j p there) own slot

  put_node-new : get_node (put_node g key node) key ≡ some node
  put_node-new = T.get-insert_self Ptr g.nodes key node alone

  put_node_keeps :
      (j : S.Key) (p : Ptr)
      → get_node g key ≡ none
      → get_node g j ≡ some p
      → get_node (put_node g key node) j ≡ some p
  put_node_keeps j p new there =
      T.get-insert_other Ptr g.nodes key j node (λ slot.
        ground (arith, alone j p there (sym slot), ap (get_node g) (alone j p there (sym slot))))
      ∙ there

  -- Nothing else is in the graph then.
  put_node_only :
      (j : S.Key) (p : Ptr)
      → get_node (put_node g key node) j ≡ some p
      → (p ≡ node) ⊎ (get_node g j ≡ some p)
  put_node_only j p there = elim (Bool-cases (S.key_eq key j)) [
    | inl here ↦ inl (ground (arith, get-insert_alone T g.nodes key alone j node))
    | inr apart ↦ inr (ground (arith, get-insert_alone T g.nodes key alone j node))
  ]

  put_node-listed :
      (j : S.Key) (p : Ptr)
      → get_node g key ≡ none
      → get_node (put_node g key node) j ≡ some p
      → S.get Ptr s.nodes j ≡ some p
  put_node-listed j p new there = elim (Bool-cases (S.slot key == S.slot j)) [
    | inl same ↦ elim (Bool-cases (S.key_eq key j)) [
      | inl here ↦ ground (
        arith,
        S.key_eq_iff key j,
        ap (get_node (put_node g key node)) ((S.key_eq_iff key j).0 here),
        put_node-new,
      )
      | inr apart ↦ ground (
        arith,
        ==_iff (S.slot key) (S.slot j),
        T.get-insert_same Ptr g.nodes key j node alone ((==_iff (S.slot key) (S.slot j)).0 same)
            (λ e. ground (arith, S.key_eq_iff key j)),
      )
    ]
    | inr apart ↦ listed j p (
        sym (
          T.get-insert_other Ptr g.nodes key j node
            (λ e. ground (arith, ==_iff (S.slot key) (S.slot j))))
        ∙ there)
  ]

get_node_id-listed :
    {S : SlotMaps} {T : SecondaryMaps S} {N E : Type 0} (g : HistoryGraph T) (w : World S N E)
    (node : Ptr) (r : Registry S) {id : S.Key} {p : Ptr}
    → registry_at w g.registry ≡ some r
    → get_id r node ≡ some id
    → get_node g id ≡ some p
    → get_node_id g w node ≡ some id
unfolding get_node_id Option.bind
get_node_id-listed g w node r at known there = rw (at, known, there) refl

-- The id that the registry gives to a node is not in the graph, where the node is not.
fresh_id :
    {S : SlotMaps} {T : SecondaryMaps S} {N E : Type 0} (g : HistoryGraph T) (w : World S N E)
    (node : Ptr) (r : Registry S)
    → registry_at w g.registry ≡ some r
    → ((id : S.Key) (p : Ptr) → get_node g id ≡ some p → S.get Ptr r.nodes id ≡ some p)
    → get_node_id g w node ≡ none
    → get_node g (add_node r node).0 ≡ none
fresh_id g w node r at listed unknown = elim (Option-cases (get_node g (add_node r node).0)) [
  | inl e ↦ e
  | inr (p, e) ↦ elim (Option-cases (get_id r node)) [
    | inl new ↦ absurd (ground (arith, listed (add_node r node).0 p e, add_node-fresh r node new))
    | inr (id, old) ↦
        let there : get_node g id ≡ some p =
          ap (λ a. get_node g a.0) (sym (add_node-known r node id old)) ∙ e in
        let known : get_node_id g w node ≡ some id = get_node_id-listed g w node r at old there in
        absurd (ground arith)
  ]
]

module _ {S : SlotMaps} {T : SecondaryMaps S} {N E : Type 0} (node : Ptr) (g : HistoryGraph T)
    (w : World S N E) where
  pub insert_node-result :
      (v : World S N E) (s : Registry S) (key : S.Key)
      → get_node_id g w node ≡ none
      → try_register_in node g.registry w ≡ (some key, put_registry v g.registry s)
      → insert_node node g w ≡ (some key, put_node g key node, put_registry v g.registry s)
  unfolding insert_node known_or finish
  insert_node-result v s key unknown eq = rw (unknown, known_or) (ap (finish g node) eq)

  -- Where graph and registries are right, inserting a node that is alive, in no registry or in that of
  -- the graph, and not in the graph yet, adds it and nothing else, under an id by which graph and
  -- registry find it, keeps the other nodes, and keeps graph and registries right.
  pub insert_node-adds :
      IsTracked w
      → IsGraph g w
      → 0 < strong_count w.heap node
      → (registry_of w.heap node ≡ none) ⊎ (registry_of w.heap node ≡ some g.registry)
      → get_node_id g w node ≡ none
      → (id : S.Key) × ((insert_node node g w).0 ≡ some id)
        × (get_node (insert_node node g w).1 id ≡ some node)
        × (get_node_id (insert_node node g w).1 (insert_node node g w).2 node ≡ some id)
        × ((j : S.Key) (p : Ptr)
            → get_node g j ≡ some p
            → get_node (insert_node node g w).1 j ≡ some p)
        × ((j : S.Key) (p : Ptr)
            → get_node (insert_node node g w).1 j ≡ some p
            → (p ≡ node) ⊎ (get_node g j ≡ some p))
        × IsGraph (insert_node node g w).1 (insert_node node g w).2
        × IsTracked (insert_node node g w).2
  insert_node-adds t graph alive may unknown =
      let r = graph.registry in
      let b = t.bijective g.registry r graph.present in
      let key : S.Key = (add_node r node).0 in
      let s : Registry S = (add_node r node).1 in
      let (v, eq, at, is) = registers-eq node g.registry w r alive graph.present may in
      let new = fresh_id g w node r graph.present graph.listed unknown in
      let (found, own) = add_node-get_id r node b in
      let listed : (id : S.Key) (p : Ptr) → get_node g id ≡ some p → S.get Ptr s.nodes id ≡ some p =
        λ id p there. add_node_keeps r node id p b (graph.listed id p there) in
      let at' : registry_at (put_registry v g.registry s) g.registry ≡ some s =
        ground (arith, registry_at-put v g.registry g.registry s at) in
      let added = put_node-new g s node key listed own in
      rw (insert_node-result v s key unknown eq) (
        key,
        refl,
        added,
        get_node_id-listed (put_node g key node) (put_registry v g.registry s) node s at' found
            added,
        λ j p there. put_node_keeps g s node key listed own j p new there,
        λ j p there. put_node_only g s node key listed own j p there,
        record {
          registry = s;
          present = at';
          listed = λ j p there. put_node-listed g s node key listed own j p new there;
        },
        subst (λ o. IsTracked o.1) eq (try_register_in-IsTracked node g.registry w alive t),
      )
