-- ===== src/Serialization/Pointers.antt =====
-- `RelRc::to_serialized` and `RelRc::from_serialized` of src/serialization.rs. The graph that each makes
-- is dropped at the end, and with it its reference to the registry.
pub mod Outliving
use mathlib.Core.Option
use relrc.Prelude.{Option}
use relrc.SlotMap.{SlotMaps, SecondaryMaps}
use relrc.Object.{Ptr, clone}
use relrc.World.{World}
use relrc.History.{get_node}
use relrc.Insertion.{insert_ancestors, with_registry}
use relrc.Serialization.Format.{SerializedRelRc}
use relrc.Serialization.Graphs
use relrc.Serialization.Graphs.{drop_graph}

module _ {S : SlotMaps} (T : SecondaryMaps S) {N E : Type 0} where
  -- `RelRc::to_serialized`, which takes a strong reference to the registry.
  unfoldable pub to_serialized :
      Ptr → Ptr → World S N E → Option (SerializedRelRc S N E × World S N E)
  unfolding insert_ancestors clone drop_graph Graphs.to_serialized
  to_serialized node registry w =
      let (history, w') = with_registry {T = T} registry w in
      Option.bind (insert_ancestors node history (record w' { heap = clone node w'.heap }))
        λ (curr_id, history', w'').
          Option.map
            (λ ancestors_graph.
              (record { id = curr_id; ancestors_graph = ancestors_graph }, drop_graph history' w''))
            (Graphs.to_serialized history' w'')

  -- `RelRc::from_serialized`
  unfoldable pub from_serialized : SerializedRelRc S N E → World S N E → Option (Ptr × World S N E)
  unfolding clone drop_graph Graphs.from_serialized
  from_serialized serialized w =
      Option.bind (Graphs.from_serialized T serialized.ancestors_graph w) λ (history, w').
        Option.map (λ node. (node, drop_graph history (record w' { heap = clone node w'.heap })))
          (get_node history serialized.id)
