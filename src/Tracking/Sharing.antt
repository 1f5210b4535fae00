-- ===== src/Tracking/Sharing.antt =====
-- A registry that is shared when it is new.
use relrc.Prelude.{
  ◌≡◌, ◌==◌, inl, inr, ◌⊎◌, [], some, arith, Bool-cases, get_elem?-concat, length, subst,
}
use relrc.SlotMap.{SlotMaps}
use relrc.Object.{Ptr, Heap}
use relrc.Registry
use relrc.Registry.{Registry}
use relrc.Registry.Bijection.{new-Bijective}
use relrc.World.{World, RegistryBox, share, registry_at}
use relrc.Tracking.{IsTracked}

module _ {S : SlotMaps} {N E : Type 0} where
  -- In memory where no registry was made
  pub none-IsTracked : (h : Heap N E) → IsTracked {S = S} (record { heap = h; registries = [] })
  none-IsTracked h = record { bijective = λ rp r at. cc; tracked = λ rp r id p at. cc }

  share-at :
      (w : World S N E) (fresh r : Registry S) (rp : Ptr)
      → registry_at (share fresh w).1 rp ≡ some r
      → (r ≡ fresh) ⊎ (registry_at w rp ≡ some r)
  unfolding share
  share-at w fresh r rp at =
      let box : RegistryBox S = record { strong = 1; registry = fresh } in
      elim (Bool-cases (rp == length w.registries)) [
        | inl here ↦ inl (ground (arith, get_elem?-concat w.registries box rp))
        | inr other ↦ inr (ground (arith, get_elem?-concat w.registries box rp))
      ]

  -- A new registry that is shared lists nothing, and the others stay as they were.
  pub share-IsTracked : (w : World S N E) → IsTracked w → IsTracked (share (Registry.new S) w).1
  unfolding Registry.new share
  share-IsTracked w t = record {
    bijective = λ rp r at. elim (share-at w (Registry.new S) r rp at) [
      | inl fresh ↦ rw fresh (new-Bijective S)
      | inr old ↦ t.bijective rp r old
    ];
    tracked = λ rp r id p at got. elim (share-at w (Registry.new S) r rp at) [
      | inl fresh ↦
          let found = subst (λ (m : Registry S). S.get Ptr m.nodes id ≡ some p) fresh got in
          absurd (ground (arith, S.get-with_key Ptr id))
      | inr old ↦ t.tracked rp r id p old got
    ];
  }
