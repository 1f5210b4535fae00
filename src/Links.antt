-- ===== src/Links.antt =====
-- The weak references to outgoing edges (src/node.rs) against the incoming edges that own them.
pub mod Keeping
pub mod Pushing
pub mod Linking
pub mod Raising
pub mod Outgoing
pub mod Following
use relrc.Prelude.{
  ℕ, zero, suc, ◌+◌, ◌-◌, ◌<◌, ◌≤◌, ◌≡◌, Bool, Option, none, some, List, [], ◌∷◌, ◌==◌, ◌&&◌,
  if◌then◌else◌, get_elem?, length,
}
use relrc.Object.{Ptr, RcBox, WeakEdge, Edge, InnerEdgeData, Heap, sources, strong_count}
use relrc.Counts.{sources_at}

abbrev pub box_outgoing : {N E : Type 0} → Option (RcBox N E) → List WeakEdge
box_outgoing none = []
box_outgoing (some b) = b.inner.outgoing

abbrev pub outgoing_at : {N E : Type 0} → Heap N E → Ptr → List WeakEdge
outgoing_at h p = box_outgoing (get_elem? h p)

-- How often the edge at position `i` of `t` is listed.
abbrev pub weak_count : ℕ → Ptr → List WeakEdge → ℕ
weak_count i t [] = 0
weak_count i t (e ∷ es) = (if (i == e.index) && (t == e.target) then 1 else 0) + weak_count i t es

abbrev pub starts_at : Ptr → Option Ptr → ℕ
starts_at s none = 0
starts_at s (some q) = if s == q then 1 else 0

-- A node that is alive lists the edge at position `i` of a node that is alive once if the edge
-- starts at it, and otherwise not at all; it lists no edge of a node that is not there yet.
pub record IsLinked {N E : Type 0} (h : Heap N E) : Type 0 where
  pub linked :
      (s t : Ptr) (i : ℕ)
      → 0 < strong_count h s
      → 0 < strong_count h t
      → weak_count i t (outgoing_at h s) ≡ starts_at s (get_elem? (sources_at h t) i)
  pub absent :
      (s t : Ptr) (i : ℕ)
      → 0 < strong_count h s
      → length h ≤ t
      → weak_count i t (outgoing_at h s) ≡ 0
