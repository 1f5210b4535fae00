-- ===== src/Serialization/Graphs/Opened.antt =====
-- What the graph that `HistoryGraph::from_serialized` of src/serialization.rs returns is, against what
-- was saved.
use mathlib.Core.List.{Memᴰ}
use relrc.Prelude.{◌<◌, ◌↔◌, ◌≡◌, none, some, List, count, ◌++◌}
use relrc.SlotMap.{SlotMaps, SecondaryMaps}
use relrc.Object.{Ptr, InnerEdgeData, strong_count}
use relrc.World.{World, registry_at}
use relrc.Registry.{Registry}
use relrc.Registry.Bijection.{Bijective}
use relrc.History.{HistoryGraph, get_node}
use relrc.Tracking.{registry_of}
use relrc.Tracking.Outliving.{holders}
use relrc.Counts.{IsCounted}
use relrc.Program.Later.{made}
use relrc.Serialization.Format.{SerializedInnerData, SerializedHistoryGraph}
use relrc.Serialization.Restoring.Restored.{SameEdges}

module _ {S : SlotMaps} {N E : Type 0} (ser : SerializedHistoryGraph S N E) where
  -- Node `p` of a registry against what was saved under its id `i`
  pub record IsReadAs (registry : Registry S) (w : World S N E) (i : S.Key) (p : Ptr) : Type 0 where
    pub node : SerializedInnerData S.Key N E
    pub saved : S.get (SerializedInnerData S.Key N E) ser.registry.nodes i ≡ some node
    pub edges : List (InnerEdgeData E)
    pub made_as : 0 < strong_count w.heap p → made w.heap p ≡ some (node.value, edges)
    pub joined : SameEdges (S.get Ptr registry.nodes) p node.incoming edges

  -- Graph `g` against what was saved
  pub record IsReadBack {T : SecondaryMaps S} (g : HistoryGraph T) (w : World S N E) : Type 0 where
    pub registry : Registry S
    pub present : registry_at w g.registry ≡ some registry
    pub bijective : Bijective registry
    pub all_saved :
        (i : S.Key) (v : SerializedInnerData S.Key N E)
        → S.get (SerializedInnerData S.Key N E) ser.registry.nodes i ≡ some v
        → (p : Ptr) × (S.get Ptr registry.nodes i ≡ some p)
    pub read_as :
        (i : S.Key) (p : Ptr) → S.get Ptr registry.nodes i ≡ some p → IsReadAs registry w i p
    pub nodes :
        (i : S.Key) (p : Ptr)
        → (get_node g i ≡ some p) ↔ (Memᴰ i ser.nodes × (S.get Ptr registry.nodes i ≡ some p))
    pub alive : (i : S.Key) (p : Ptr) → get_node g i ≡ some p → 0 < strong_count w.heap p
    pub inside :
        (i : S.Key) (p : Ptr) → get_node g i ≡ some p → registry_of w.heap p ≡ some g.registry
    pub outside :
        (i : S.Key) (p : Ptr)
        → S.get Ptr registry.nodes i ≡ some p
        → get_node g i ≡ none
        → registry_of w.heap p ≡ none

-- Besides the handles `roots` a handle to each node of the graph is owned, and the graph alone holds its
-- registry.
pub record IsOwner {S : SlotMaps} {T : SecondaryMaps S} {N E : Type 0} (roots : List Ptr)
    (g : HistoryGraph T) (w : World S N E) : Type 0 where
  pub mine : List Ptr
  pub counts : IsCounted (mine ++ roots) w.heap
  pub own : (i : S.Key) (p : Ptr) → get_node g i ≡ some p → 0 < count p mine
  pub held : holders w g.registry ≡ 1
