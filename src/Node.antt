-- ===== src/Node.antt =====
-- src/node.rs: `RelRc`, `RelWeak` and `InnerData`, and the edges of src/edge.rs. An operation that
-- changes memory takes the heap, or the whole world where it reaches a registry, and returns it.
use relrc.Prelude.{
  ℕ, suc, Bool, ◌==◌, ◌&&◌, Option, none, some, List, [], ◌∷◌, ◌++◌, map, get_elem?, modify, length,
}
use mathlib.Core.Option
use relrc.Object.{
  Ptr, InnerEdgeData, WeakEdge, Edge, InnerData, Heap, sources, deref, over_inner, upgrade,
}

-- The closure of `with_parents`: one edge for each parent; the handle of the parent moves into it.
unfoldable pub incoming_edges : {E : Type 0} → Ptr → List (Ptr × E) → List (InnerEdgeData E)
incoming_edges weak_node [] = []
incoming_edges weak_node ((parent, value) ∷ ps) =
    record { value = value; source = parent; target = weak_node } ∷ incoming_edges weak_node ps

-- `InnerEdgeData::downgrade`
abbrev pub downgrade : {E : Type 0} → InnerEdgeData E → ℕ → WeakEdge
downgrade e target_pos = record { index = target_pos; target = e.target }

-- `WeakEdge`s of the edges from position `i` on
unfoldable pub weak_edges : {E : Type 0} → ℕ → List (InnerEdgeData E) → List WeakEdge
weak_edges i [] = []
weak_edges i (e ∷ es) = downgrade e i ∷ weak_edges (suc i) es

-- `RelRc::ptr_eq` and `RelWeak::ptr_eq`, which compare addresses
unfoldable ptr_eq : Ptr → Ptr → Bool
ptr_eq p q = p == q

-- `WeakEdge::ptr_eq`
unfoldable pub edge_ptr_eq : WeakEdge → WeakEdge → Bool
unfolding ptr_eq
edge_ptr_eq e f = (e.index == f.index) && ptr_eq e.target f.target

-- One step of `all_outgoing`: an edge that was upgraded is returned and kept.
keep_edge : WeakEdge → Option Edge → List Edge × List WeakEdge → List Edge × List WeakEdge
keep_edge e none (edges, kept) = (edges, kept)
keep_edge e (some edge) (edges, kept) = (edge ∷ edges, e ∷ kept)

module _ {N E : Type 0} where
  -- `InnerData::new`
  abbrev pub inner_new : N → InnerData N E
  inner_new value = record { value = value; incoming = []; outgoing = []; registry = none }

  -- `InnerData::with_incoming`
  abbrev pub with_incoming : N → List (InnerEdgeData E) → InnerData N E
  with_incoming value incoming = record {
    value = value;
    incoming = incoming;
    outgoing = [];
    registry = none;
  }

  -- `Rc::new` at the next address
  abbrev pub allocate : InnerData N E → Heap N E → Ptr × Heap N E
  allocate inner h = (length h, h ++ record { strong = 1; inner = inner } ∷ [])

  -- `RelRc::new`
  unfoldable pub new : N → Heap N E → Ptr × Heap N E
  new value h = allocate (inner_new value) h

  abbrev pub push_outgoing : WeakEdge → InnerData N E → InnerData N E
  push_outgoing e inner = record inner { outgoing = inner.outgoing ++ e ∷ [] }

  -- `register_outgoing_edges` from position `i` on
  unfoldable pub register_from : ℕ → List (InnerEdgeData E) → Heap N E → Heap N E
  register_from i [] h = h
  register_from i (e ∷ es) h =
      register_from (suc i) es (modify h e.source (over_inner (push_outgoing (downgrade e i))))

  -- `RelRc::with_parents`
  unfoldable pub with_parents : N → List (Ptr × E) → Heap N E → Ptr × Heap N E
  unfolding incoming_edges register_from
  with_parents value parents h =
      let incoming : List (InnerEdgeData E) = incoming_edges (length h) parents in
      let (node, h') = allocate (with_incoming value incoming) h in
      (node, register_from 0 incoming h')

  -- `InnerData::incoming`
  abbrev pub incoming : InnerData N E → ℕ → Option (InnerEdgeData E)
  incoming inner index = get_elem? inner.incoming index

  -- `InnerData::incoming_weak`
  unfoldable pub incoming_weak : InnerData N E → ℕ → Option WeakEdge
  incoming_weak inner index = Option.map (λ e. downgrade e index) (incoming inner index)

  -- `InnerData::parent`
  unfoldable pub parent : InnerData N E → ℕ → Option Ptr
  parent inner index = Option.map (λ e. e.source) (incoming inner index)

  -- `InnerData::all_parents`
  abbrev pub all_parents : InnerData N E → List Ptr
  all_parents inner = sources inner.incoming

  -- `InnerData::all_incoming_weak`
  unfoldable pub all_incoming_weak : InnerData N E → List WeakEdge
  unfolding weak_edges
  all_incoming_weak inner = weak_edges 0 inner.incoming

  -- `InnerData::all_outgoing_weak`
  unfoldable pub all_outgoing_weak : InnerData N E → List WeakEdge
  all_outgoing_weak inner = inner.outgoing

  -- `InnerData::n_incoming`
  unfoldable pub n_incoming : InnerData N E → ℕ
  n_incoming inner = length inner.incoming

  -- `WeakEdge::upgrade`
  unfoldable pub upgrade_edge : WeakEdge → Heap N E → Option Edge × Heap N E
  unfolding upgrade
  upgrade_edge e h =
      let (target, h') = upgrade e.target h in
      (Option.map (λ t. record { index = e.index; target = t }) target, h')

  -- `Edge::deref`: `none` is the panic of `unwrap`.
  unfoldable pub edge_deref : Edge → Heap N E → Option (InnerEdgeData E)
  edge_deref e h = Option.bind (deref h e.target) (λ inner. incoming inner e.index)

  -- `InnerEdgeData::target`: `none` is the panic of `expect`.
  unfoldable pub edge_target : InnerEdgeData E → Heap N E → Option Ptr × Heap N E
  unfolding upgrade
  edge_target e h = upgrade e.target h

  -- The closure of `retain` in `all_outgoing`, over the edges in order.
  unfoldable pub retain_live : List WeakEdge → Heap N E → (List Edge × List WeakEdge) × Heap N E
  unfolding upgrade_edge keep_edge
  retain_live [] h = (([], []), h)
  retain_live (e ∷ es) h =
      let (edge, h') = upgrade_edge e h in
      let (rest, h'') = retain_live es h' in (keep_edge e edge rest, h'')

  abbrev pub outgoing_of : Option (InnerData N E) → List WeakEdge
  outgoing_of none = []
  outgoing_of (some inner) = inner.outgoing

  -- `InnerData::all_outgoing`: the edges that are alive, each with a strong reference to its
  -- target; the node forgets the others.
  unfoldable pub all_outgoing : Ptr → Heap N E → List Edge × Heap N E
  unfolding retain_live
  all_outgoing p h =
      let (kept, h') = retain_live (outgoing_of (deref h p)) h in
      (kept.0, modify h' p (over_inner (λ inner. record inner { outgoing = kept.1 })))

  -- `InnerData::all_children`
  unfoldable pub all_children : Ptr → Heap N E → List Ptr × Heap N E
  unfolding all_outgoing
  all_children p h = let (edges, h') = all_outgoing p h in (map (λ e. e.target) edges, h')

  -- `RelRc::default`, with the default of the values
  unfoldable pub default_node : N → Heap N E → Ptr × Heap N E
  unfolding new
  default_node default_value h = new default_value h
