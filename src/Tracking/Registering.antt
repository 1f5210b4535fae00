-- ===== src/Tracking/Registering.antt =====
-- `try_register_in` of src/node.rs.
use relrc.Prelude.{
  subst, ◌<◌, ◌≡◌, ◌==◌, ==_iff, refl, ◌⊎◌, inl, inr, true, some, none, arith, Option-cases,
  Bool-cases,
}
use relrc.SlotMap.{SlotMaps}
use relrc.Object.{Ptr, strong_count}
use relrc.Registry.{Registry, add_node, get_id}
use relrc.Registry.Bijection.{Bijective, add_node-Bijective, get-add_node, add_node-get_id}
use relrc.World.{World, registry_at, put_registry}
use relrc.Drop.{try_register_in, set_register, add_to}
use relrc.Tracking.{put-cases, IsTracked, registry_of, registry_at-put, registry_of-set}

module _ {S : SlotMaps} {N E : Type 0} (p rp : Ptr) (w : World S N E) where
  -- The node's entry in the registry, made or found, where the node already says that it is in it.
  add_to-IsTracked :
      (v : World S N E)
      → IsTracked v
      → registry_of v.heap p ≡ some rp
      → IsTracked (add_to p rp (registry_at v rp) v).1
  add_to-IsTracked v t is = elim (Option-cases (registry_at v rp)) [
    | inl e ↦ rw e t
    | inr (r, e) ↦ rw e (record {
      bijective = λ rq s at. elim (put-cases v rp rq (add_node r p).1 e at) [
        | inl (_, new) ↦ rw new (add_node-Bijective r p (t.bijective rp r e))
        | inr (_, old) ↦ t.bijective rq s old
      ];
      tracked = λ rq s id q at got. elim (put-cases v rp rq (add_node r p).1 e at) [
        | inl (here, new) ↦
            let found = subst (λ (m : Registry S). S.get Ptr m.nodes id ≡ some q) new got in
            rw (← here)
              (ground (arith, get-add_node r p id (t.bijective rp r e), t.tracked rp r id q e))
        | inr (_, old) ↦ t.tracked rq s id q old got
      ];
    })
  ]

  set_register-IsTracked :
      registry_of w.heap p ≡ none → IsTracked w → IsTracked (set_register p rp w)
  set_register-IsTracked free t = record {
    bijective = t.bijective;
    tracked = λ rq s id q at got.
        ground (arith, t.tracked rq s id q at got, registry_of-set w.heap p q (some rp));
  }

  -- Registering keeps the registries right, whichever registry the node is in.
  pub try_register_in-IsTracked :
      0 < strong_count w.heap p → IsTracked w → IsTracked (try_register_in p rp w).1
  unfolding try_register_in
  try_register_in-IsTracked alive t = elim (Option-cases (registry_of w.heap p)) [
    | inl e ↦ rw e (
        add_to-IsTracked (set_register p rp w) (set_register-IsTracked e t)
          (ground (arith, registry_of-set w.heap p p (some rp))))
    | inr (old, e) ↦ elim (Bool-cases (old == rp)) [
      | inl same ↦ rw (e, same) (add_to-IsTracked w t (ground (arith, ==_iff old rp)))
      | inr other ↦ rw (e, other) t
    ]
  ]

  -- Registering where it succeeds: a node that says that it is in the registry is added to it.
  pub registers-eq :
      (r : Registry S)
      → 0 < strong_count w.heap p
      → registry_at w rp ≡ some r
      → (registry_of w.heap p ≡ none) ⊎ (registry_of w.heap p ≡ some rp)
      → (v : World S N E) × (try_register_in p rp w
          ≡ (some (add_node r p).0, put_registry v rp (add_node r p).1))
        × (registry_at v rp ≡ some r)
        × (registry_of v.heap p ≡ some rp)
  unfolding try_register_in
  registers-eq r alive at (inl e) = (
    set_register p rp w,
    rw (e, at) refl,
    at,
    ground (arith, registry_of-set w.heap p p (some rp)),
  )
  registers-eq r alive at (inr e) =
      let same : (rp == rp) ≡ true = ground arith in (w, rw (e, same, at) refl, at, e)

  -- A node that is alive and in no registry, or in the one that it is offered, gets an id there by which
  -- both find the other, and then says that it is in it, where the two maps of the registry agree.
  pub try_register_in-registers :
      (r : Registry S)
      → 0 < strong_count w.heap p
      → registry_at w rp ≡ some r
      → Bijective r
      → (registry_of w.heap p ≡ none) ⊎ (registry_of w.heap p ≡ some rp)
      → (id : S.Key) × (s : Registry S) × ((try_register_in p rp w).0 ≡ some id)
        × (registry_at (try_register_in p rp w).1 rp ≡ some s)
        × (get_id s p ≡ some id)
        × (S.get Ptr s.nodes id ≡ some p)
        × (registry_of (try_register_in p rp w).1.heap p ≡ some rp)
  try_register_in-registers r alive at b may =
      let (v, eq, at', is) = registers-eq r alive at may in
      (
        (add_node r p).0,
        (add_node r p).1,
        rw eq refl,
        rw eq (ground (arith, registry_at-put v rp rp (add_node r p).1 at')),
        (add_node-get_id r p b).0,
        (add_node-get_id r p b).1,
        rw eq is,
      )
