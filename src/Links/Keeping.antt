-- ===== src/Links/Keeping.antt =====
-- Dropping a handle keeps the links right.
use relrc.Prelude.{◌<◌, ◌≡◌, inl, inr, arith, get_elem?, Option-cases}
use relrc.SlotMap.{SlotMaps}
use relrc.Object.{Ptr, Heap, strong_count}
use relrc.World.{World}
use relrc.Drop.{drop}
use relrc.Counts.Frame.{Shrinks, sources-Shrinks, drop-Shrinks}
use relrc.Links.{IsLinked, outgoing_at}

module _ {N E : Type 0} {h g : Heap N E} (shrunk : Shrinks h g) where
  outgoing-Shrinks : (q : Ptr) → 0 < strong_count g q → outgoing_at g q ≡ outgoing_at h q
  outgoing-Shrinks q alive = elim (Option-cases (get_elem? g q)) [
    | inl e ↦ absurd (ground arith)
    | inr (b, e) ↦ elim (Option-cases (get_elem? h q)) [
      | inl e' ↦ ground (arith, shrunk.same q)
      | inr (b', e') ↦ ground (arith, shrunk.same q)
    ]
  ]

  IsLinked-Shrinks : IsLinked h → IsLinked g
  IsLinked-Shrinks l = record {
    linked = λ s t i live_s live_t.
        rw (outgoing-Shrinks s live_s, sources-Shrinks shrunk t live_t)
          (l.linked s t i (omega (arith, shrunk.fewer s)) (omega (arith, shrunk.fewer t)));
    absent = λ s t i live_s far.
        rw (outgoing-Shrinks s live_s)
          (l.absent s t i (omega (arith, shrunk.fewer s)) (omega (arith, shrunk.size)));
  }

module _ {S : SlotMaps} {N E : Type 0} (p : Ptr) (w : World S N E) where
  -- `drop` keeps the links right.
  pub drop-IsLinked : IsLinked w.heap → IsLinked (drop p w).heap
  drop-IsLinked l = IsLinked-Shrinks (drop-Shrinks p w) l
