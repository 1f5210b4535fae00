-- ===== src/Detached/Building.antt =====
-- `RelRc::attach` of src/detached.rs: the objects of a detached object are built in memory again.
-- `none` is a panic of `unwrap`. `hash_id` is a parameter, as in Detaching; it is asked for the handles
-- in `attach_to` only. `successors` panics at an object that is not there, and so does `f`, which
-- `post_order_for_each` calls with each object that it asks `successors` for. Each object is built
-- once, unless the current one is its own ancestor, so that `insert` replaces nothing.
pub mod Ordered
pub mod Attached
pub mod Copying
pub mod Handles
use mathlib.Core.Option
use relrc.Prelude.{
  ℕ, suc, ◌*◌, ◌+◌, Bool, true, false, not, Option, none, some, List, [], ◌∷◌, map, length,
  if◌then◌else◌,
}
use relrc.SlotMap.{SlotMaps}
use relrc.Object.{Ptr, Heap, clone}
use relrc.Node.{with_parents}
use relrc.World.{World}
use relrc.Drop.{drop, each}
use relrc.Mpi.Message.{Hashes}
use relrc.Mpi.Transfer.{DetachedInnerData}
use relrc.Mpi.Protocol.{find_data, insert_data}
use relrc.Detached.{
  Detached, hash_eq, contains_key, data_parents, all_data_parents, post_order_for_each,
}

module _ (H : Hashes) where
  -- `attach_to.into_iter().map(|n| (n.hash_id(), n)).collect()`
  abbrev pub collect_handles :
      (Ptr → H.RelRcHash) → List Ptr → List (H.RelRcHash × Ptr) → List (H.RelRcHash × Ptr)
  collect_handles hash_id [] m = m
  collect_handles hash_id (p ∷ ps) m = collect_handles hash_id ps (insert_data H m (hash_id p) p)

  -- `all_new_relrc.get(&parent).or_else(|| attach_to.get(&parent))`
  abbrev pub find_relrc :
      List (H.RelRcHash × Ptr) → List (H.RelRcHash × Ptr) → H.RelRcHash → Option Ptr
  find_relrc all_new_relrc attach_to parent = elim (find_data H all_new_relrc parent) [
    | none ↦ find_data H attach_to parent
    | some p ↦ some p
  ]

  -- What is left of `all_new_relrc` after `remove`, to be dropped
  abbrev pub others : H.RelRcHash → List (H.RelRcHash × Ptr) → List Ptr
  others id [] = []
  others id ((k, p) ∷ entries) =
      if hash_eq H k id then map (λ e. e.1) entries else p ∷ others id entries

module _ (H : Hashes) {N E : Type 0} where
  -- The iterator `parents`, which `with_parents` runs
  unfoldable pub find_parents :
      List (H.RelRcHash × Ptr)
      → List (H.RelRcHash × Ptr)
      → List (H.RelRcHash × E)
      → Heap N E
      → Option (List (Ptr × E) × Heap N E)
  unfolding clone
  find_parents all_new_relrc attach_to [] h = some ([], h)
  find_parents all_new_relrc attach_to ((parent, edge_value) ∷ edges) h =
      Option.bind (find_relrc H all_new_relrc attach_to parent) λ relrc.
        Option.map (λ (rest, h'). ((relrc, edge_value) ∷ rest, h'))
          (find_parents all_new_relrc attach_to edges (clone relrc h))

  -- The closure `f` that `attach` gives to `post_order_for_each`
  unfoldable pub build :
      Detached H N E
      → List (H.RelRcHash × Ptr)
      → H.RelRcHash
      → List (H.RelRcHash × Ptr)
      → Heap N E
      → Option (List (H.RelRcHash × Ptr) × Heap N E)
  unfolding find_parents with_parents
  build detached attach_to id all_new_relrc h =
      Option.bind (find_data H detached.all_data id) λ inner.
        Option.map
          (λ (parents, h').
            let (relrc, h'') = with_parents inner.value parents h' in
            (insert_data H all_new_relrc id relrc, h''))
          (find_parents all_new_relrc attach_to inner.incoming h)

  -- The calls of `f`, in order
  unfoldable pub build_all :
      Detached H N E
      → List (H.RelRcHash × Ptr)
      → List H.RelRcHash
      → List (H.RelRcHash × Ptr)
      → Heap N E
      → Option (List (H.RelRcHash × Ptr) × Heap N E)
  unfolding build
  build_all detached attach_to [] all_new_relrc h = some (all_new_relrc, h)
  build_all detached attach_to (id ∷ ids) all_new_relrc h =
      Option.bind (build detached attach_to id all_new_relrc h)
        λ (all_new_relrc', h'). build_all detached attach_to ids all_new_relrc' h'

  -- The closure `successors`
  abbrev pub parents_in : Option (DetachedInnerData H N E) → List H.RelRcHash
  parents_in none = []
  parents_in (some inner) = data_parents H inner

  -- The order in which `attach` builds; each object is entered and left once, so that two rounds for
  -- each parent that is named, and three more, are enough.
  unfoldable pub build_order : Detached H N E → List (H.RelRcHash × Ptr) → Option (List H.RelRcHash)
  unfolding post_order_for_each
  build_order detached attach_to =
      post_order_for_each (hash_eq H) (λ id. parents_in (find_data H detached.all_data id))
        (λ id. not (contains_key H attach_to id))
        (3 + 2 * length (all_data_parents H detached.all_data)) detached.current

module _ (H : Hashes) {S : SlotMaps} {N E : Type 0} where
  -- `all_new_relrc.remove(&detached.current).unwrap()`, and the end of `attach`
  unfoldable pub take_current :
      H.RelRcHash → List Ptr → List (H.RelRcHash × Ptr) → World S N E → Option (Ptr × World S N E)
  unfolding drop each
  take_current current handles all_new_relrc w =
      Option.map (λ p. (p, each drop handles (each drop (others H current all_new_relrc) w)))
        (find_data H all_new_relrc current)

  -- `RelRc::attach`
  unfoldable pub attach :
      (Ptr → H.RelRcHash) → Detached H N E → List Ptr → World S N E → Option (Ptr × World S N E)
  unfolding build_order build_all take_current drop each clone
  attach hash_id detached handles w =
      let attach_to = collect_handles H hash_id handles [] in
      elim (find_data H attach_to detached.current) [
        | some p ↦ some (p, each drop handles (record w { heap = clone p w.heap }))
        | none ↦ Option.bind (build_order H detached attach_to) λ ids.
            Option.bind (build_all H detached attach_to ids [] w.heap) λ (all_new_relrc, h).
              take_current detached.current handles all_new_relrc (record w { heap = h })
      ]
