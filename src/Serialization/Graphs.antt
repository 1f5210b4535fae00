-- ===== src/Serialization/Graphs.antt =====
-- The serialised forms of `HistoryGraph` and of `RelRc` (src/serialization.rs). `none` is a panic of
-- `expect` or `assert!`, or of a call that panics.
pub mod Asserting
pub mod Keeping
pub mod Opened
pub mod Opening
pub mod Reading
pub mod Writing
pub mod Copying
use mathlib.Core.Option
use relrc.Prelude.{
  Bool, false, true, Option, none, some, List, [], ◌∷◌, ◌++◌, map, ◌||◌, ◌&&◌, if◌then◌else◌,
  modify, ◌-◌,
}
use relrc.SlotMap.{SlotMaps, SecondaryMaps}
use relrc.Object.{Ptr, Heap, clone}
use relrc.World.{World, RegistryBox, registry_at, share}
use relrc.Registry
use relrc.Registry.{Registry, get_id_or_insert, contains_id, is_some}
use relrc.Ancestors.{all_ancestors}
use relrc.Drop.{drop, each}
use relrc.History.{HistoryGraph, all_node_ids, get_node}
use relrc.Insertion
use relrc.Insertion.{insert_ancestors, with_registry}
use relrc.Serialization.Format.{
  SerializedInnerData, SerializedRegistry, SerializedHistoryGraph, SerializedRelRc,
}
use relrc.Serialization.Saving

abbrev pub all_of : {A : Type 0} → (A → Bool) → List A → Bool
all_of f [] = true
all_of f (x ∷ xs) = f x && all_of f xs

-- `contains` of a `BTreeSet` or `FxHashSet` of ids
abbrev pub has_key : (S : SlotMaps) → List S.Key → S.Key → Bool
has_key S [] k = false
has_key S (i ∷ is) k = S.key_eq i k || has_key S is k

module _ {S : SlotMaps} where
  -- `.map(|n| registry.get_id_or_insert(n)).collect_vec()`
  unfoldable pub ids_or_insert : Registry S → List Ptr → List S.Key × Registry S
  unfolding get_id_or_insert
  ids_or_insert registry [] = ([], registry)
  ids_or_insert registry (n ∷ ns) =
      let (id, registry') = get_id_or_insert registry n in
      let (ids, end) = ids_or_insert registry' ns in (id ∷ ids, end)

  -- The closure of `flat_map` for each of the graph's nodes
  unfoldable pub ancestor_ids :
      {N E : Type 0} → Heap N E → Registry S → List S.Key → Option (List S.Key × Registry S)
  unfolding ids_or_insert all_ancestors Registry.get
  ancestor_ids h registry [] = some ([], registry)
  ancestor_ids h registry (n ∷ ns) = Option.bind (Registry.get registry n h).0 λ node.
      Option.bind (all_ancestors h node) λ (ancestors, _).
        let (ids, registry') = ids_or_insert registry ancestors in
        Option.map (λ (rest, end). (ids ++ rest, end)) (ancestor_ids h registry' ns)

-- The handles that `all_nodes.retain` drops
abbrev pub rejected : (S : SlotMaps) → List S.Key → List (S.Key × Ptr) → List Ptr
rejected S keep [] = []
rejected S keep ((k, p) ∷ es) =
    if has_key S keep k then rejected S keep es else p ∷ rejected S keep es

abbrev pub is_known : {S : SlotMaps} (T : SecondaryMaps S) → T.SecondaryMap Ptr → S.Key → Bool
is_known T all_nodes k = is_some (T.get Ptr all_nodes k)

abbrev release_strong : {S : SlotMaps} → RegistryBox S → RegistryBox S
release_strong b = record b { strong = b.strong - 1 }

module _ {S : SlotMaps} {T : SecondaryMaps S} {N E : Type 0} where
  -- `HistoryGraph::to_serialized`; `registry` is a clone of the shared one.
  unfoldable pub to_serialized :
      HistoryGraph T → World S N E → Option (SerializedHistoryGraph S N E)
  unfolding ancestor_ids Saving.to_serialized
  to_serialized g w =
      let nodes = all_node_ids g in
      Option.bind (registry_at w g.registry) λ registry.
        Option.bind (ancestor_ids w.heap registry nodes) λ (ancestors, registry').
          Option.map
            (λ ser_registry. record {
              nodes = nodes;
              registry = record {
                nodes =
                    S.retain (SerializedInnerData S.Key N E) ser_registry.nodes
                      (λ k _. has_key S ancestors k);
              };
            })
            (Saving.to_serialized registry' w.heap)

  -- A graph goes out of scope: its handles, and its reference to the registry.
  unfoldable pub drop_graph : HistoryGraph T → World S N E → World S N E
  unfolding drop each
  drop_graph g w =
      let w' = each drop (map (λ e. e.1) (T.iter Ptr g.nodes)) w in
      record w' { registries = modify w'.registries g.registry release_strong }

module _ {S : SlotMaps} (T : SecondaryMaps S) {N E : Type 0} where
  -- `HistoryGraph::from_serialized` from `all_nodes.retain` on
  unfoldable pub keep_nodes :
      List S.Key
      → Registry S
      → T.SecondaryMap Ptr
      → World S N E
      → Option (HistoryGraph T × World S N E)
  unfolding drop each Insertion.new share Registry.contains
  keep_nodes keep registry all_nodes w =
      let kept = T.retain Ptr all_nodes (λ k _. has_key S keep k) in
      let w' = each drop (rejected S keep (T.iter Ptr all_nodes)) w in
      let (rp, w'') = share registry w' in
      if all_of (λ e. Registry.contains registry e.1) (T.iter Ptr kept)
      then some (Insertion.new (map (λ e. e.1) (T.iter Ptr kept)) rp w'')
      else none

  -- `HistoryGraph::from_serialized`
  unfoldable pub from_serialized :
      SerializedHistoryGraph S N E → World S N E → Option (HistoryGraph T × World S N E)
  unfolding Saving.from_serialized contains_id keep_nodes
  from_serialized serialized w =
      let keep = serialized.nodes in
      Option.bind (Saving.from_serialized T serialized.registry w.heap) λ (registry, all_nodes, h).
        if all_of (is_known T all_nodes) keep && all_of (λ k. contains_id registry k h) keep
        then keep_nodes keep registry all_nodes (record w { heap = h })
        else none
