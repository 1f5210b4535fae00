-- ===== src/Lib.antt =====
-- relrc: reference-counted pointers with parents, ids for them, and graphs of them.
--
-- The program. A `RelRc` (src/node.rs) is an `Rc` whose data holds strong references to its
-- parents, one in each incoming edge (src/edge.rs), and weak references to its outgoing edges. A
-- `Registry` (src/registry.rs) gives ids to nodes and holds them weakly; a node that was registered
-- says in which registry it is, and leaves it when its last handle is dropped. A `HistoryGraph`
-- (src/history.rs) owns handles of some nodes under the ids of one registry.
--
-- The files.
-- - Object: the structs of src/node.rs and src/edge.rs, and the boxes that `Rc` and `Weak` point
--   to. A pointer is the place of its box in the list of all boxes that were allocated. A box keeps
--   its strong count; a freed box stays in the list with count 0, so no address is used twice. The
--   memory of dead data that a `Weak` still points to stays reserved in Rust too, and no other
--   pointers are compared. Weak counts are not kept.
-- - Node: `RelRc::new`, `RelRc::with_parents`, the accessors of `InnerData`, `all_outgoing`,
--   `all_children`, and `WeakEdge::upgrade`, `Edge::deref` of src/edge.rs. A function that changes
--   memory takes and returns the heap.
-- - Registry (src/registry.rs): `Registry` over the slot map, whose `HashMap` is a function.
-- - World: the heap together with the registries that are shared by `Rc<RefCell<Registry>>`.
-- - Drop: `try_register_in`, `try_set_register`, `registry` and the `Drop` of src/node.rs.
--   `release` recurs on a depth: the parents of a node were allocated before it, so the depth `p +
--   1` for a handle to `p` is enough, which `Counts` proves by showing that every handle is given
--   back.
-- - Ancestors (src/node.rs): the closure of `all_ancestors`, and the loop that runs it to its first
--   `None`. A node is yielded once at most, so one round more than there are boxes is enough fuel.
-- - History, Insertion (src/history.rs): the queries of `HistoryGraph`, and `insert_node`,
--   `insert_ancestors` and the constructors. `none` is a panic of `expect`; Insertion/Returning
--   shows that the depth `node + 1` is enough. What `insert` of a secondary map throws out is not
--   dropped: Insertion/Adding shows that the slot holds no other node of the graph.
--   Insertion/Closing is about graphs that own the handles to their nodes and have the parents of
--   their nodes.
-- - Serialization (src/serialization.rs): the serialised forms (Format), and `to_serialized` and
--   `from_serialized` of registries (Saving), graphs (Graphs) and pointers (Pointers). Restoring is
--   `deserialize_nodes`: a call takes a node out of the serialised ones, so that a depth and a
--   number of rounds one more than there are of these is enough. `none` is a panic. Graphs/Reading,
--   with Opened and Opening, is about the graph that is read: Graphs/Keeping about its nodes, and Insertion/Loading about the
--   loop that inserts them. Graphs/Writing and Graphs/Copying are about a graph that is written and
--   read again, Pointers/Outliving about the node that `RelRc::from_serialized` keeps of a graph.
-- - Petgraph: `neighbors`, `edges` and `edge_references` of src/petgraph.rs and the `EdgeRef` of
--   src/petgraph/edge_ref.rs, run to their ends on a fixed world.
-- - Mpi: the messages of src/detached/mpi/msg_types.rs, what src/detached/mpi/send_recv.rs makes of
--   them, and `mpi_send` and `mpi_recv` of src/detached/mpi.rs over a list of packets in order. MPI
--   keeps the order of packets between two processes, and `matched_probe_with_tag` takes the first
--   with its tag. Mpi/Protocol is `send_relrc` and `recv_relrc` as two processes that take turns in
--   any order, up to the call of `attach` at the end of `recv_relrc`, which may panic; that call is
--   in Mpi/Protocol/Attaching and Outcome.
--   Mpi/Polling is the trait `MPISendRecv` with its three modes. `RelRcHash` stands in a module
--   that the repository lacks: it is a parameter.
-- - Detached (src/lib.rs leaves its file and those of Mpi out of the crate): `Detached`,
--   `Detached::new` with `ancestors_upto` (Detaching), `required_hashes`, `attaches_to`,
--   `post_order_for_each` and `RelRc::attach` (Building) of src/detached.rs. The loop of
--   `ancestors_upto` follows each edge once at most, so two rounds more than there are edges are
--   enough fuel; `post_order_for_each` takes its fuel as an argument, and Visiting/Ending says how
--   much is enough. `hash_id` stands in a module that the repository lacks: it is a parameter.
-- - Resolver (src/resolver.rs): the trait as a record of operations, with its laws in Merging, and
--   the resolver of the tests.
-- - Prelude: shared names and lemmas on lists and numbers.
-- - SlotMap: the slot maps of the crate slotmap_fork_lmondada, which is not part of this
--   repository: their operations with their documented behaviour are a parameter. SlotMap/Reference
--   shows that the laws can be met.
-- - Counts, Links, Valid: proofs about the counts, about the lists of outgoing edges, and both
--   together. `roots` is the list of the handles that the program owns.
-- - Tracking: proofs about registries and the nodes that they list, Tracking/Outliving about the
--   nodes that outlive one. Program: programs as sequences
--   of operations. Tests: runs, and the theorems at concrete inputs.
--
-- Not modelled: what the derives of serde, `Hash` and `Debug` generate; the dynamic borrow checks
-- of `RefCell`; destructors of node and edge values; a buffer of MPI that runs out, as the
-- channels of Mpi hold any number of packets; overflow of a strong count, at which `Rc` aborts:
-- Program/Bounding says how large counts get.
pub mod Prelude
pub mod SlotMap
pub mod Object
pub mod Registry
pub mod World
pub mod Node
pub mod Drop
pub mod Counts
pub mod Links
pub mod Ancestors
pub mod Valid
pub mod Program
pub mod Tracking
pub mod History
pub mod Insertion
pub mod Resolver
pub mod Serialization
pub mod Mpi
pub mod Detached
pub mod Petgraph
mod Tests
