-- ===== src/Counts.antt =====
-- The reference counts of src/node.rs against the handles that a program owns. `roots` lists the
-- owned handles, each as often as it is owned: program variables, the edges that `all_outgoing`
-- returned, the nodes of a history graph.
pub mod Update
pub mod Dropping
pub mod Creating
pub mod Reach
pub mod Frame
use relrc.Prelude.{ℕ, ◌+◌, ◌<◌, ◌≡◌, Option, none, some, List, [], map, get_elem?, count, All}
use relrc.Object.{Ptr, RcBox, Heap, sources, strong_count, edge_refs}

abbrev pub box_sources : {N E : Type 0} → Option (RcBox N E) → List Ptr
box_sources none = []
box_sources (some b) = sources b.inner.incoming

abbrev pub sources_at : {N E : Type 0} → Heap N E → Ptr → List Ptr
sources_at h p = box_sources (get_elem? h p)

pub record IsCounted {N E : Type 0} (roots : List Ptr) (h : Heap N E) : Type 0 where
  pub counted : (p : Ptr) → strong_count h p ≡ count p roots + edge_refs h p
  pub ordered : (p : Ptr) → All (λ q. q < p) (sources_at h p)
  pub freed : (p : Ptr) → strong_count h p ≡ 0 → sources_at h p ≡ []
