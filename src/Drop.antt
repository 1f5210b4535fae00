-- ===== src/Drop.antt =====
-- The operations of src/node.rs that reach a registry: registering a node, and dropping a handle.
-- The handle's own `Drop` takes a node whose last handle goes out of its registry; then the count
-- falls, and at 0 the data is dropped, and with it the handles that its incoming edges hold.
use relrc.Prelude.{
  ℕ, zero, suc, ◌+◌, Bool, true, false, Option, none, some, List, [], ◌∷◌, ◌==◌, ltb, if◌then◌else◌,
  modify, length, map,
}
use relrc.SlotMap.{SlotMaps}
use relrc.Object.{Ptr, InnerData, RcBox, strong_count, deref, decrement, over_inner}
use relrc.World.{World, registry_at, put_registry}
use relrc.Registry.{Registry, get_id, remove, add_node}
use relrc.Node.{all_parents, all_outgoing}

module _ {N E : Type 0} where
  abbrev pub set_registry : Option Ptr → InnerData N E → InnerData N E
  set_registry r inner = record inner { registry = r }

  abbrev pub registry_field : Option (InnerData N E) → Option Ptr
  registry_field none = none
  registry_field (some inner) = inner.registry

  -- The data of a freed box is gone; what its edges held is dropped by `release`.
  abbrev pub free : RcBox N E → RcBox N E
  free b = record { strong = 0; inner = record b.inner { incoming = []; outgoing = [] } }

  abbrev pub parents_of : Option (InnerData N E) → List Ptr
  parents_of none = []
  parents_of (some inner) = all_parents inner

-- `let Some(id) = registry.borrow().get_id(self) else { return }; registry.remove(id)`
unfoldable pub forget : {S : SlotMaps} → Registry S → Ptr → Registry S
unfolding get_id remove
forget r p = elim (get_id r p) [ none ↦ r | some id ↦ remove r id ]

-- What is done to each of a list of handles, in order.
unfoldable pub each : {W : Type 0} → (Ptr → W → W) → List Ptr → W → W
each f [] w = w
each f (p ∷ ps) w = each f ps (f p w)

module _ {S : SlotMaps} {N E : Type 0} where
  -- The rest of `try_set_register` and of `try_register_in`, when no registry was set.
  abbrev pub set_register : Ptr → Ptr → World S N E → World S N E
  set_register p rp w = record w { heap = modify w.heap p (over_inner (set_registry (some rp))) }

  set_or_compare : Ptr → Ptr → Option Ptr → World S N E → Bool × World S N E
  set_or_compare p rp (some existing) w = (existing == rp, w)
  set_or_compare p rp none w = (true, set_register p rp w)

  -- `RelRc::try_set_register`: the weak reference that is there is compared by address, whether or
  -- not its registry is still alive.
  unfoldable pub try_set_register : Ptr → Ptr → World S N E → Bool × World S N E
  unfolding set_or_compare
  try_set_register p rp w = set_or_compare p rp (registry_field (deref w.heap p)) w

  -- `weak.upgrade()` of a weak reference to a registry
  abbrev pub upgrade_registry : Ptr → Option (Registry S) → World S N E → Option Ptr × World S N E
  upgrade_registry rp none w = (none, w)
  upgrade_registry rp (some r) w = (
    some rp,
    record w { registries = modify w.registries rp (λ b. record b { strong = b.strong + 1 }) },
  )

  upgrade_field : Option Ptr → World S N E → Option Ptr × World S N E
  upgrade_field none w = (none, w)
  upgrade_field (some rp) w = upgrade_registry rp (registry_at w rp) w

  -- `RelRc::registry`
  unfoldable pub node_registry : Ptr → World S N E → Option Ptr × World S N E
  unfolding upgrade_field
  node_registry p w = upgrade_field (registry_field (deref w.heap p)) w

  -- `registry.borrow_mut().add_node(self)`. The caller holds a reference to the registry, so that it
  -- is alive; at an address where there is none, nothing is done.
  abbrev pub add_to : Ptr → Ptr → Option (Registry S) → World S N E → Option S.Key × World S N E
  add_to p rp none w = (none, w)
  add_to p rp (some r) w = (some (add_node r p).0, put_registry w rp (add_node r p).1)

  -- `RelRc::try_register_in`
  unfoldable pub try_register_in : Ptr → Ptr → World S N E → Option S.Key × World S N E
  unfolding try_set_register add_node
  try_register_in p rp w =
      let (set, w') = try_set_register p rp w in
      if set then add_to p rp (registry_at w' rp) w' else (none, w')

  forget_in : Ptr → Ptr → Option (Registry S) → World S N E → World S N E
  forget_in p rp none w = w
  forget_in p rp (some r) w = put_registry w rp (forget r p)

  forget_at : Ptr → Option Ptr → World S N E → World S N E
  forget_at p none w = w
  forget_at p (some rp) w = forget_in p rp (registry_at w rp) w

  -- `RelRc::drop` behind its test: `register.take()`, and the node leaves the registry that it had,
  -- if that is alive and knows it.
  unfoldable pub unregister : Ptr → World S N E → World S N E
  unfolding forget_in forget_at
  unregister p w =
      forget_at p (registry_field (deref w.heap p))
        (record w { heap = modify w.heap p (over_inner (set_registry none)) })

  -- A handle to `p` goes out of scope. The sources of a node's edges were allocated before it, so
  -- the depth `p + 1` is enough.
  unfoldable pub release : ℕ → Ptr → World S N E → World S N E
  unfolding each unregister
  release zero p w = w
  release (suc depth) p w = elim (ltb 1 (strong_count w.heap p)) [
    | true ↦ record w { heap = modify w.heap p decrement }
    | false ↦
        let w' = unregister p w in
        each (release depth) (parents_of (deref w.heap p))
          (record w' { heap = modify w'.heap p free })
  ]

  unfoldable pub drop : Ptr → World S N E → World S N E
  unfolding release
  drop p w = release (suc p) p w

  -- `InnerData::n_outgoing`: the edges are counted and dropped.
  unfoldable pub n_outgoing : Ptr → World S N E → ℕ × World S N E
  unfolding all_outgoing each drop
  n_outgoing p w =
      let (edges, h) = all_outgoing p w.heap in
      (length edges, each drop (map (λ e. e.target) edges) (record w { heap = h }))
