-- ===== src/Serialization/Restoring.antt =====
-- `deserialize_nodes` of src/serialization.rs. `none` is a panic of `expect`. A call of
-- `deserialize_node` takes a node out of the serialised ones, so a depth and a number of rounds one
-- more than there are of these is enough, which Restoring/Rounds proves.
pub mod Heaps
pub mod Parents
pub mod Restored
pub mod Calls
pub mod Nodes
pub mod Rounds
use relrc.Prelude.{ℕ, zero, suc, true, false, Option, none, some, List, [], ◌∷◌}
use mathlib.Core.Option
use relrc.SlotMap.{SlotMaps, SecondaryMaps}
use relrc.Object.{Ptr, Heap, clone}
use relrc.Registry.{is_some}
use relrc.Node.{with_parents}
use relrc.Serialization.Format.{SerializedInnerData}

module _ {S : SlotMaps} (T : SecondaryMaps S) (N E : Type 0) where
  -- `serialised_nodes` and `all_nodes`, with the memory.
  pub record Restoring : Type 0 where
    pub serialised_nodes : S.SlotMap (SerializedInnerData S.Key N E)
    pub all_nodes : T.SecondaryMap Ptr
    pub heap : Heap N E

module _ {S : SlotMaps} (T : SecondaryMaps S) {N E : Type 0} where
  -- The iterator `incoming`, which `with_parents` runs: the parents' handles, cloned.
  unfoldable pub clone_parents :
      T.SecondaryMap Ptr → List (S.Key × E) → Heap N E → Option (List (Ptr × E) × Heap N E)
  unfolding clone
  clone_parents all_nodes [] h = some ([], h)
  clone_parents all_nodes ((parent_id, edge_value) ∷ edges) h =
      Option.bind (T.get Ptr all_nodes parent_id) λ parent.
        Option.map (λ (rest, h'). ((parent, edge_value) ∷ rest, h'))
          (clone_parents all_nodes edges (clone parent h))

module _ {S : SlotMaps} {T : SecondaryMaps S} {N E : Type 0} where
  -- The loop over the parents in `deserialize_node`; `call` is the recursive call.
  unfoldable pub each_parent :
      (S.Key → Restoring T N E → Option (Restoring T N E))
      → List (S.Key × E)
      → Restoring T N E
      → Option (Restoring T N E)
  each_parent call [] s = some s
  each_parent call ((parent_id, _) ∷ edges) s = elim (is_some (T.get Ptr s.all_nodes parent_id)) [
    | true ↦ each_parent call edges s
    | false ↦ Option.bind (call parent_id s) (each_parent call edges)
  ]

  -- The end of `deserialize_node`: the new node, with its edges.
  unfoldable pub rebuild :
      S.Key → SerializedInnerData S.Key N E → Restoring T N E → Option (Restoring T N E)
  unfolding clone_parents with_parents
  rebuild node_id node_ser s =
      Option.map
        (λ (incoming, h).
          let (node_deser, h') = with_parents node_ser.value incoming h in
          record s { all_nodes = T.insert Ptr s.all_nodes node_id node_deser; heap = h' })
        (clone_parents T s.all_nodes node_ser.incoming s.heap)

  unfoldable pub deserialize_node : ℕ → S.Key → Restoring T N E → Option (Restoring T N E)
  unfolding each_parent rebuild
  deserialize_node zero node_id s = none
  deserialize_node (suc depth) node_id s =
      let (removed, rest) = S.remove (SerializedInnerData S.Key N E) s.serialised_nodes node_id in
      Option.bind removed λ node_ser.
        Option.bind
          (each_parent (deserialize_node depth) node_ser.incoming
            (record s { serialised_nodes = rest }))
          (rebuild node_id node_ser)

  abbrev pub remaining : Restoring T N E → ℕ
  remaining s = S.len (SerializedInnerData S.Key N E) s.serialised_nodes

  -- The `while let` loop of `deserialize_nodes`.
  unfoldable pub deserialize_rounds : ℕ → Restoring T N E → Option (Restoring T N E)
  unfolding deserialize_node
  deserialize_rounds zero s = none
  deserialize_rounds (suc rounds) s =
      elim (S.iter (SerializedInnerData S.Key N E) s.serialised_nodes) [
        | [] ↦ some s
        | (node_id, _) ∷ _ ↦
            Option.bind (deserialize_node (suc (remaining s)) node_id s) (deserialize_rounds rounds)
      ]

module _ {S : SlotMaps} (T : SecondaryMaps S) {N E : Type 0} where
  unfoldable pub deserialize_nodes :
      S.SlotMap (SerializedInnerData S.Key N E) → Heap N E → Option (T.SecondaryMap Ptr × Heap N E)
  unfolding deserialize_rounds
  deserialize_nodes serialised_nodes h =
      let start : Restoring T N E = record {
        serialised_nodes = serialised_nodes;
        all_nodes = T.new Ptr;
        heap = h;
      } in
      Option.map (λ s. (s.all_nodes, s.heap)) (deserialize_rounds (suc (remaining start)) start)
