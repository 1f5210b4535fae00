-- ===== src/Tracking.antt =====
-- The registries of src/registry.rs against the nodes of src/node.rs, for nodes that are registered
-- by `try_register_in`: what a registry that is alive lists says that it is in that registry.
pub mod Registering
pub mod Freeing
pub mod Sharing
pub mod Leaving
pub mod Outliving
use relrc.Prelude.{
  ℕ, ◌≡◌, ◌==◌, refl, Option, some, none, arith, if◌then◌else◌, modify, get_elem?, get_elem?-modify,
  Option-cases, Bool-cases, ==_iff, ◌⊎◌, ◌≢◌, inl, inr, true, false,
}
use relrc.SlotMap.{SlotMaps}
use relrc.Object.{Ptr, RcBox, InnerData, Heap, deref, strong_count, over_inner}
use relrc.Registry.{Registry}
use relrc.Registry.Bijection.{Bijective}
use relrc.World.{World, RegistryBox, registry_at, put_registry}
use relrc.Drop.{registry_field, set_registry}

abbrev pub registry_of : {N E : Type 0} → Heap N E → Ptr → Option Ptr
registry_of h p = registry_field (deref h p)

pub record IsTracked {S : SlotMaps} {N E : Type 0} (w : World S N E) : Type 0 where
  pub bijective : (rp : Ptr) (r : Registry S) → registry_at w rp ≡ some r → Bijective r
  pub tracked :
      (rp : Ptr) (r : Registry S) (id : S.Key) (p : Ptr)
      → registry_at w rp ≡ some r
      → S.get Ptr r.nodes id ≡ some p
      → registry_of w.heap p ≡ some rp

pub registry_at-put :
    {S : SlotMaps} {N E : Type 0} (w : World S N E) (rp rq : Ptr) (r : Registry S)
    {old : Registry S}
    → registry_at w rp ≡ some old
    → registry_at (put_registry w rp r) rq ≡ (if rp == rq then some r else registry_at w rq)
registry_at-put w rp rq r e = elim (Option-cases (get_elem? w.registries rq)) [
  | inl none_there ↦
      ground (arith, get_elem?-modify w.registries rp rq (λ b. record b { registry = r }))
  | inr (b, there) ↦
      ground (arith, get_elem?-modify w.registries rp rq (λ b. record b { registry = r }))
]

pub registry_of-set :
    {N E : Type 0} (h : Heap N E) (p q : Ptr) (r : Option Ptr)
    → registry_of (modify h p (over_inner (set_registry r))) q
      ≡ (if p == q then (if strong_count h p == 0 then none else r) else registry_of h q)
registry_of-set h p q r = elim (Option-cases (get_elem? h q)) [
  | inl e ↦ ground (arith, get_elem?-modify h p q (over_inner (set_registry r)))
  | inr (b, e) ↦ ground (arith, get_elem?-modify h p q (over_inner (set_registry r)))
]

-- The registry found after one was written: that one, or one that was there before.
pub put-cases :
    {S : SlotMaps} {N E : Type 0} (w : World S N E) (rp rq : Ptr) (r : Registry S)
    {old s : Registry S}
    → registry_at w rp ≡ some old
    → registry_at (put_registry w rp r) rq ≡ some s
    → (rp ≡ rq) × (s ≡ r) ⊎ (rp ≢ rq) × (registry_at w rq ≡ some s)
put-cases w rp rq r e at = elim (Bool-cases (rp == rq)) [
  | inl same ↦ inl ((==_iff rp rq).0 same, ground (arith, registry_at-put w rp rq r e))
  | inr other ↦ inr (ground (arith, ==_iff rp rq), ground (arith, registry_at-put w rp rq r e))
]
