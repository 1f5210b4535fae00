-- ===== src/Serialization/Saving.antt =====
-- `Registry::to_serialized` and `Registry::from_serialized` of src/serialization.rs. `none` is a panic
-- of `expect`. The reference that `Registry::get` returns is dropped at the end of
-- `serialize_inner_data`, so that memory is as before.
pub mod Copying
pub mod Reading
pub mod Returning
use relrc.Prelude.{Option, none, some, List, [], ◌∷◌}
use mathlib.Core.Option
use relrc.SlotMap.{SlotMaps, SecondaryMaps}
use relrc.Object.{Ptr, InnerEdgeData, Heap, deref}
use relrc.Registry
use relrc.Registry.{Registry, get_id, from_slotmap}
use relrc.Serialization.Format.{SerializedInnerData, SerializedRegistry}
use relrc.Serialization.Restoring.{deserialize_nodes}

-- The iterator `parent_ids`, zipped with the edges.
unfoldable pub save_edges :
    {S : SlotMaps} {E : Type 0} → Registry S → List (InnerEdgeData E) → Option (List (S.Key × E))
unfolding get_id
save_edges registry [] = some []
save_edges registry (edge ∷ edges) =
    Option.bind (get_id registry edge.source)
      λ parent_id. Option.map (λ rest. (parent_id, edge.value) ∷ rest) (save_edges registry edges)

module _ {S : SlotMaps} {N E : Type 0} where
  unfoldable pub serialize_inner_data :
      S.Key → Registry S → Heap N E → Option (SerializedInnerData S.Key N E)
  unfolding save_edges Registry.get
  serialize_inner_data node_id registry h = Option.bind (Registry.get registry node_id h).0 λ node.
      Option.bind (deref h node) λ inner.
        Option.map (λ incoming. record { value = inner.value; incoming = incoming })
          (save_edges registry inner.incoming)

  -- `Registry::to_serialized`
  unfoldable pub to_serialized : Registry S → Heap N E → Option (SerializedRegistry S N E)
  unfolding serialize_inner_data
  to_serialized registry h =
      Option.map (λ nodes. record { nodes = nodes })
        (S.map Ptr (SerializedInnerData S.Key N E) registry.nodes
          (λ k _. serialize_inner_data k registry h))

module _ {S : SlotMaps} (T : SecondaryMaps S) {N E : Type 0} where
  -- `Registry::from_serialized`: the registry, and the handles of the nodes.
  unfoldable pub from_serialized :
      SerializedRegistry S N E → Heap N E → Option (Registry S × T.SecondaryMap Ptr × Heap N E)
  unfolding deserialize_nodes from_slotmap
  from_serialized serialized h =
      Option.bind
        (S.map (SerializedInnerData S.Key N E) (Unit {0}) serialized.nodes (λ _ _. some tt))
        λ nodes_set. Option.bind (deserialize_nodes T serialized.nodes h) λ (nodes, g).
          Option.map (λ registry. (from_slotmap registry, nodes, g))
            (S.map (Unit {0}) Ptr nodes_set (λ k _. T.get Ptr nodes k))
