-- ===== src/Tests/Edges.antt =====
-- Edges of the family (src/edge.rs), and the theorem about them at a concrete input.
use mathlib.Core.Option
use relrc.Prelude.{ℕ, ◌≡◌, refl, false, some, [], arith}
use relrc.Object.{InnerEdgeData, clone}
use relrc.Node.{new, with_parents, all_outgoing, edge_deref, edge_ptr_eq, default_node}
use relrc.Counts.{sources_at}
use relrc.Links.Following.{edge_deref-all_outgoing}
use relrc.Tests.{family, family-IsValid}

-- The edge from the root to its child has the value 7.
followed :
    Option.map
      (λ e. e.value)
      (edge_deref (record { index = 0; target = 1 }) (all_outgoing 0 family).1)
    ≡ some 7
unfolding new clone with_parents all_outgoing edge_deref Option.bind
followed = refl

edge_deref-all_outgoing_example :
    (d : InnerEdgeData ℕ) × (edge_deref (record { index = 0; target = 1 }) (all_outgoing 0 family).1
      ≡ some d)
    × (d.source ≡ 0)
unfolding new clone with_parents all_outgoing
edge_deref-all_outgoing_example =
    edge_deref-all_outgoing 0 family 1 0 family-IsValid.links (omega arith) (omega arith)

-- Edges at two places of one node are not the same edge.
two_edges :
    edge_ptr_eq (record { index = 0; target = 1 }) (record { index = 1; target = 1 }) ≡ false
unfolding edge_ptr_eq
two_edges = refl

-- A node with a default value has no parents.
default_sources : sources_at (default_node {N = ℕ} {E = ℕ} 0 []).1 0 ≡ []
unfolding default_node
default_sources = refl
