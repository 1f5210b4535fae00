-- ===== src/Tracking/Freeing.antt =====
-- Dropping handles of src/node.rs takes the nodes that die out of their registries.
use relrc.Prelude.{
  ℕ, zero, suc, ◌<◌, ◌≡◌, ◌≢◌, ◌==◌, subst, inl, inr, some, none, List, [], ◌∷◌, arith, ltb, ltb→lt,
  if◌then◌else◌, modify, get_elem?, get_elem?-modify, Option-cases, Bool-cases,
}
use relrc.SlotMap.{SlotMaps}
use relrc.Object.{RcBox, Ptr, Heap, deref, strong_count, over_inner, decrement}
use relrc.Registry.{Registry, get_id}
use relrc.Registry.Bijection.{Bijective, remove-Bijective, get-remove}
use relrc.World.{World, registry_at}
use relrc.Drop.{forget, free, set_registry, parents_of, unregister, each, release, drop}
use relrc.Tracking.{IsTracked, registry_of, put-cases}

module _ {S : SlotMaps} (r : Registry S) (p : Ptr) (b : Bijective r) where
  forget-Bijective : Bijective (forget r p)
  unfolding forget
  forget-Bijective = elim (Option-cases (get_id r p)) [
    | inl e ↦ rw (e, forget) b
    | inr (id, e) ↦ rw (e, forget) (remove-Bijective r id b)
  ]

  -- A registry that forgot a node lists the other nodes only.
  forget-get :
      (id : S.Key) (q : Ptr)
      → S.get Ptr (forget r p).nodes id ≡ some q
      → (p ≢ q) × (S.get Ptr r.nodes id ≡ some q)
  unfolding forget get_id
  forget-get id q got = elim (Option-cases (r.ptr_to_id p)) [
    | inl e ↦ ground (arith, b.id_of id q)
    | inr (j, e) ↦ ground (arith, b.id_of id q, get-remove r j id, S.key_eq_iff j id)
  ]

pub registry_of-free :
    {N E : Type 0} (h : Heap N E) (p q : Ptr)
    → registry_of (modify (modify h p (over_inner (set_registry none))) p free) q
      ≡ (if p == q then none else registry_of h q)
registry_of-free {N} {E} h p q =
    let f : RcBox N E → RcBox N E = over_inner (set_registry none) in
    elim (Option-cases (get_elem? h q)) [
      | inl e ↦ ground (arith, get_elem?-modify h p q f, get_elem?-modify (modify h p f) p q free)
      | inr (b, e) ↦
          ground (arith, get_elem?-modify h p q f, get_elem?-modify (modify h p f) p q free)
    ]

module _ {S : SlotMaps} {N E : Type 0} where
  -- The node whose last handle goes, out of its registry and freed.
  abbrev freed : Ptr → World S N E → World S N E
  freed p w = let w' = unregister p w in record w' { heap = modify w'.heap p free }

  freed-IsTracked : (p : Ptr) (w : World S N E) → IsTracked w → IsTracked (freed p w)
  unfolding unregister
  freed-IsTracked p w t = elim (Option-cases (registry_of w.heap p)) [
    | inl e ↦ rw e (record {
      bijective = t.bijective;
      tracked = λ rq s id q at got.
          ground (arith, t.tracked rq s id q at got, registry_of-free w.heap p q);
    })
    | inr (rp, e) ↦ elim (Option-cases (registry_at w rp)) [
      | inl gone ↦
          rw (e, gone)
            (record {
              bijective = t.bijective;
              tracked = λ rq s id q at got.
                  ground (arith, t.tracked rq s id q at got, registry_of-free w.heap p q);
            })
      | inr (r, there) ↦
          rw (e, there)
            (record {
              bijective = λ rq s at. elim (put-cases w rp rq (forget r p) there at) [
                | inl (_, new) ↦ rw new (forget-Bijective r p (t.bijective rp r there))
                | inr (_, old) ↦ t.bijective rq s old
              ];
              tracked = λ rq s id q at got. elim (put-cases w rp rq (forget r p) there at) [
                | inl (here, new) ↦
                    let found = subst (λ (m : Registry S). S.get Ptr m.nodes id ≡ some q) new got in
                    let (other, before) = forget-get r p (t.bijective rp r there) id q found in
                    rw (← here) (
                      ground (arith, t.tracked rp r id q there before, registry_of-free w.heap p q))
                | inr (apart, old) ↦
                    ground (arith, t.tracked rq s id q old got, registry_of-free w.heap p q)
              ];
            })
    ]
  ]

  decrement-IsTracked :
      (p : Ptr) (w : World S N E)
      → 1 < strong_count w.heap p
      → IsTracked w
      → IsTracked (record w { heap = modify w.heap p decrement })
  decrement-IsTracked p w more t = record {
    bijective = t.bijective;
    tracked = λ rq s id q at got. elim (Option-cases (get_elem? w.heap q)) [
      | inl e ↦ ground (arith, t.tracked rq s id q at got, get_elem?-modify w.heap p q decrement)
      | inr (b, e) ↦
          ground (arith, t.tracked rq s id q at got, get_elem?-modify w.heap p q decrement)
    ];
  }

  each-IsTracked :
      (f : Ptr → World S N E → World S N E)
      → ((p : Ptr) (w : World S N E) → IsTracked w → IsTracked (f p w))
      → (ps : List Ptr) (w : World S N E) → IsTracked w
      → IsTracked (each f ps w)
  unfolding each
  each-IsTracked f one [] w t = t
  each-IsTracked f one (p ∷ ps) w t = each-IsTracked f one ps (f p w) (one p w t)

  release-IsTracked :
      (depth : ℕ) (p : Ptr) (w : World S N E) → IsTracked w → IsTracked (release depth p w)
  unfolding release
  release-IsTracked zero p w t = t
  release-IsTracked (suc depth) p w t = elim (Bool-cases (ltb 1 (strong_count w.heap p))) [
    | inl more ↦ rw (more, release) (decrement-IsTracked p w (ltb→lt _ _ more) t)
    | inr last ↦
        rw (last, release)
          (each-IsTracked (release depth) (release-IsTracked depth) (parents_of (deref w.heap p))
            (freed p w) (freed-IsTracked p w t))
  ]

  -- Dropping a handle keeps the registries right, with all the nodes that die by it.
  pub drop-IsTracked : (p : Ptr) (w : World S N E) → IsTracked w → IsTracked (drop p w)
  unfolding drop
  drop-IsTracked p w t = release-IsTracked (suc p) p w t

  -- After `drop` no registry that is alive lists a node that is dead.
  pub drop-live_ids :
      (p : Ptr) (w : World S N E) (rp : Ptr) (r : Registry S) (id : S.Key) (q : Ptr)
      → IsTracked w
      → registry_at (drop p w) rp ≡ some r
      → S.get Ptr r.nodes id ≡ some q
      → 0 < strong_count (drop p w).heap q
  drop-live_ids p w rp r id q t at got =
      let in_it = (drop-IsTracked p w t).tracked rp r id q at got in
      elim (Option-cases (get_elem? (drop p w).heap q)) [
        | inl e ↦ absurd (ground arith)
        | inr (b, e) ↦ ground arith
      ]
