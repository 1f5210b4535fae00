-- ===== src/Detached/Detaching.antt =====
-- `ancestors_upto` and `Detached::new` of src/detached.rs. `hash_id` of a node stands in the module
-- `hash_id`, which the repository lacks: it is a parameter, a function of the node. The handles that
-- `ancestors_upto` clones are all dropped when `Detached::new` returns, so memory is as before.
pub mod Counting
pub mod Reaching
pub mod Finding
pub mod Taking
use mathlib.Core.Option
use relrc.Prelude.{
  ℕ, zero, suc, ◌+◌, Bool, true, false, ◌||◌, Option, none, some, List, [], ◌∷◌, map, length,
}
use relrc.Object.{Ptr, RcBox, InnerData, InnerEdgeData, Heap, deref}
use relrc.Drop.{parents_of}
use relrc.Mpi.Message.{Hashes}
use relrc.Mpi.Transfer.{DetachedInnerData}
use relrc.Detached.{Detached, has, contains_key}

-- `stack.extend(ps)`; the head of a stack is its top.
abbrev pub push_all : List Ptr → List Ptr → List Ptr
push_all [] stack = stack
push_all (p ∷ ps) stack = push_all ps (p ∷ stack)

-- The edges in memory
abbrev pub edge_total : {N E : Type 0} → Heap N E → ℕ
edge_total [] = 0
edge_total (b ∷ h) = length b.inner.incoming + edge_total h

module _ (H : Hashes) {N E : Type 0} (h : Heap N E) (hash_id : Ptr → H.RelRcHash) where
  -- The `while` loop of `ancestors_upto`; `none` if the fuel runs out.
  unfoldable pub ancestors_loop :
      ℕ → List H.RelRcHash → List Ptr → List (H.RelRcHash × Ptr) → Option (List (H.RelRcHash × Ptr))
  ancestors_loop zero detach_from stack all_nodes = none
  ancestors_loop (suc fuel) detach_from [] all_nodes = some all_nodes
  ancestors_loop (suc fuel) detach_from (node ∷ stack) all_nodes =
      let node_id = hash_id node in
      elim (contains_key H all_nodes node_id || has H detach_from node_id) [
        | true ↦ ancestors_loop fuel detach_from stack all_nodes
        | false ↦
            ancestors_loop fuel detach_from (push_all (parents_of (deref h node)) stack)
              ((node_id, node) ∷ all_nodes)
      ]

  -- `ancestors_upto`: each edge is followed once at most, so that two rounds more than there are edges
  -- are enough.
  unfoldable pub ancestors_upto : Ptr → List H.RelRcHash → Option (List (H.RelRcHash × Ptr))
  unfolding ancestors_loop
  ancestors_upto obj detach_from =
      ancestors_loop (suc (suc (edge_total h))) detach_from (obj ∷ []) []

  -- `DetachedInnerData::new`, and `DetachedInnerData::from`
  abbrev pub data_of : InnerData N E → DetachedInnerData H N E
  data_of inner = record {
    value = inner.value;
    incoming = map (λ e. (hash_id e.source, e.value)) inner.incoming;
  }

  -- The closure of `map` in `Detached::new`, for each entry
  unfoldable pub detach_all :
      List (H.RelRcHash × Ptr) → Option (List (H.RelRcHash × DetachedInnerData H N E))
  detach_all [] = some []
  detach_all ((id, n) ∷ entries) =
      Option.bind (deref h n)
        λ inner. Option.map (λ rest. (id, data_of inner) ∷ rest) (detach_all entries)

  -- `Detached::new`, which `RelRc::detach` calls
  unfoldable pub new : Ptr → List H.RelRcHash → Option (Detached H N E)
  unfolding ancestors_upto detach_all
  new obj detach_from = Option.bind (ancestors_upto obj detach_from) λ all_relrc.
      Option.map (λ all_data. record { current = hash_id obj; all_data = all_data })
        (detach_all all_relrc)
