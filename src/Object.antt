-- ===== src/Object.antt =====
-- The memory behind `RelRc` (src/node.rs) and its edges (src/edge.rs): the structs, and what
-- `Rc` and `Weak` do to the counts. An address is the place of a box in the list of all boxes ever
-- allocated: a freed box stays in the list with strong count 0, so no address is given out twice.
-- A weak count is not kept: it decides only when the memory behind dead data is returned, and
-- every pointer that is compared is held by a `Weak` that keeps its memory reserved.
use relrc.Prelude.{
  ℕ, ◌+◌, ◌-◌, Option, none, some, List, [], ◌∷◌, map, ◌==◌, if◌then◌else◌, get_elem?, modify,
  count,
}

abbrev pub Ptr : Type 0
Ptr = ℕ

-- `InnerEdgeData`: `source` is a strong reference, `target` a weak one.
pub record InnerEdgeData (E : Type 0) : Type 0 where
  pub value : E
  pub source : Ptr
  pub target : Ptr

-- `WeakEdge`: an index and a weak reference to the target.
pub record WeakEdge : Type 0 where
  pub index : ℕ
  pub target : Ptr

-- `Edge`: an index and a strong reference to the target.
pub record Edge : Type 0 where
  pub index : ℕ
  pub target : Ptr

-- `InnerData`: `registry` is a weak reference to a registry.
pub record InnerData (N E : Type 0) : Type 0 where
  pub value : N
  pub incoming : List (InnerEdgeData E)
  pub outgoing : List WeakEdge
  pub registry : Option Ptr

-- The allocation that an `Rc<InnerData>` points to.
pub record RcBox (N E : Type 0) : Type 0 where
  pub strong : ℕ
  pub inner : InnerData N E

abbrev pub Heap : Type 0 → Type 0 → Type 0
Heap N E = List (RcBox N E)

abbrev pub sources : {E : Type 0} → List (InnerEdgeData E) → List Ptr
sources es = map (λ e. e.source) es

module _ {N E : Type 0} where
  abbrev pub strong_of : Option (RcBox N E) → ℕ
  strong_of none = 0
  strong_of (some b) = b.strong

  -- `Rc::strong_count`, and 0 where nothing was allocated.
  abbrev pub strong_count : Heap N E → Ptr → ℕ
  strong_count h p = strong_of (get_elem? h p)

  abbrev pub inner_of : Option (RcBox N E) → Option (InnerData N E)
  inner_of none = none
  inner_of (some b) = if b.strong == 0 then none else some b.inner

  -- What a reference leads to: the data of a box that is alive.
  abbrev pub deref : Heap N E → Ptr → Option (InnerData N E)
  deref h p = inner_of (get_elem? h p)

  abbrev pub increment : RcBox N E → RcBox N E
  increment b = record b { strong = b.strong + 1 }

  abbrev pub decrement : RcBox N E → RcBox N E
  decrement b = record b { strong = b.strong - 1 }

  abbrev pub over_inner : (InnerData N E → InnerData N E) → RcBox N E → RcBox N E
  over_inner f b = record b { inner = f b.inner }

  -- `RelRc::clone`, which is `Rc::clone`.
  unfoldable pub clone : Ptr → Heap N E → Heap N E
  clone p h = modify h p increment

  -- `Weak::upgrade`: a new strong reference, if the data is still alive.
  unfoldable pub upgrade : Ptr → Heap N E → Option Ptr × Heap N E
  unfolding clone
  upgrade p h = if strong_count h p == 0 then (none, h) else (some p, clone p h)

  -- The strong references to `p` that the incoming edges of all boxes hold.
  abbrev pub edge_refs : Heap N E → Ptr → ℕ
  edge_refs [] p = 0
  edge_refs (b ∷ h) p = count p (sources b.inner.incoming) + edge_refs h p
