-- ===== src/Serialization/Graphs/Reading.antt =====
-- The graph that `HistoryGraph::from_serialized` of src/serialization.rs returns.
use mathlib.Core.List.{Memᴰ}
use relrc.Prelude.{ℕ, ◌≡◌, ◌∙◌, some, List}
use relrc.SlotMap.{SlotMaps, SecondaryMaps}
use relrc.Object.{Ptr}
use relrc.World.{World, share}
use relrc.History.{HistoryGraph}
use relrc.Insertion
use relrc.Insertion.{insert_all}
use relrc.Counts.{IsCounted}
use relrc.Serialization.Format.{SerializedInnerData, SerializedHistoryGraph}
use relrc.Serialization.Restoring.Restored.{IsRanked}
use relrc.Serialization.Saving.Reading.{from_serialized-Read}
use relrc.Serialization.Graphs.{from_serialized}
use relrc.Serialization.Graphs.Asserting.{keep_nodes-new, from_serialized-keep_nodes}
use relrc.Serialization.Graphs.Opened.{IsReadBack, IsOwner}
use relrc.Serialization.Graphs.Opening.{new-IsReadBack, new-IsOwner}

pub from_serialized-IsOwner :
    {S : SlotMaps} (T : SecondaryMaps S) {N E : Type 0} (ser : SerializedHistoryGraph S N E)
    (w : World S N E) (roots : List Ptr) (rank : S.Key → ℕ)
    → IsCounted roots w.heap
    → IsRanked (S.get (SerializedInnerData S.Key N E) ser.registry.nodes) rank
    → ((k : S.Key)
        → Memᴰ k ser.nodes
        → (v : SerializedInnerData S.Key N E) × (S.get
              (SerializedInnerData S.Key N E)
              ser.registry.nodes
              k
            ≡ some v))
    → (g : HistoryGraph T) × (w' : World S N E) × (from_serialized T ser w ≡ some (g, w'))
      × IsReadBack ser g w'
      × IsOwner roots g w'
unfolding Insertion.new share
from_serialized-IsOwner T ser w roots rank c ranked saved =
    let read = from_serialized-Read T ser.registry w.heap rank ranked in
    (
      _,
      _,
      from_serialized-keep_nodes T ser w read saved ∙ keep_nodes-new T ser w read,
      new-IsReadBack T ser w read roots c,
      new-IsOwner T ser w read roots c,
    )

-- Where counts are right, the edges of the saved nodes make no cycle and come from saved nodes, and
-- each id that the graph is to have was saved, `from_serialized` returns. The graph's registry is
-- shared, its two maps agree, and it lists exactly what was saved: under each id a node with, while it is alive,
-- the value that was saved and the edges, in order, from the nodes with the parents' ids. The graph
-- has the nodes of the ids that it is to have, and no other; they are alive and refer to its
-- registry. A node that the registry lists and the graph lacks refers to no registry.
pub from_serialized-IsReadBack :
    {S : SlotMaps} (T : SecondaryMaps S) {N E : Type 0} (ser : SerializedHistoryGraph S N E)
    (w : World S N E) (roots : List Ptr) (rank : S.Key → ℕ)
    → IsCounted roots w.heap
    → IsRanked (S.get (SerializedInnerData S.Key N E) ser.registry.nodes) rank
    → ((k : S.Key)
        → Memᴰ k ser.nodes
        → (v : SerializedInnerData S.Key N E) × (S.get
              (SerializedInnerData S.Key N E)
              ser.registry.nodes
              k
            ≡ some v))
    → (g : HistoryGraph T) × (w' : World S N E) × (from_serialized T ser w ≡ some (g, w'))
      × IsReadBack ser g w'
from_serialized-IsReadBack T ser w roots rank c ranked saved =
    let (g, w', returned, read_back, owner) =
      from_serialized-IsOwner T ser w roots rank c ranked saved in
    (g, w', returned, read_back)
