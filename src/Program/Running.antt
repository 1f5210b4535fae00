-- ===== src/Program/Running.antt =====
-- Every program that starts with empty memory.
use relrc.Prelude.{◌<◌, ◌≡◌, ◌↔◌, some, List, count, arith, inl, inr, length}
use relrc.SlotMap.{SlotMaps}
use relrc.Object.{Ptr, Heap, strong_count}
use relrc.World.{World}
use relrc.Drop.{try_register_in}
use relrc.Counts.Update.{IsCounted-count}
use relrc.Counts.Reach.{Held, alive_iff}
use relrc.Valid.{
  IsValid, with_parents-IsValid, clone-IsValid, upgrade-IsValid, all_outgoing-IsValid, drop-IsValid,
  register-IsValid,
}
use relrc.Program.{
  State, Step, create, copy, upgraded, outgoing, register, discard, Reach, begin, extend, Same,
}
use relrc.Program.Later.{
  Later, made, Later-refl, Later-trans, with_parents-Later, clone-Later, upgrade-Later,
  all_outgoing-Later, drop-Later, try_register_in-heap, try_register_in-Later,
}

module _ {N E : Type 0} where
  reorder : {rs qs : List Ptr} {h : Heap N E} → Same rs qs → IsValid rs h → IsValid qs h
  reorder same v = record { counts = IsCounted-count same v.counts; links = v.links }

  owned_alive :
      {rs : List Ptr} {h : Heap N E} (p : Ptr)
      → IsValid rs h
      → 0 < count p rs
      → 0 < strong_count h p
  owned_alive p v own = omega (arith, v.counts.counted p)

module _ {S : SlotMaps} {N E : Type 0} where
  try_register_in-IsValid :
      (p rp : Ptr) (w : World S N E) (rs : List Ptr)
      → IsValid rs w.heap
      → IsValid rs (try_register_in p rp w).1.heap
  try_register_in-IsValid p rp w rs v = elim (try_register_in-heap p rp w) [
    | inl e ↦ rw e v
    | inr e ↦ rw e (register-IsValid v p (some rp))
  ]

  Step-IsValid :
      {s t : State S N E} → Step s t → IsValid s.roots s.world.heap → IsValid t.roots t.world.heap
  Step-IsValid {s} (create value parents rest same) v =
      with_parents-IsValid value parents s.world.heap rest (reorder same v)
  Step-IsValid {s} (copy p own) v = clone-IsValid v p (owned_alive p v own)
  Step-IsValid {s} (upgraded p got) v = elim (upgrade-IsValid v p) [
    | inl (_, v') ↦ v'
    | inr (nothing, _, _) ↦ absurd (ground arith)
  ]
  Step-IsValid {s} (outgoing p own) v = all_outgoing-IsValid v p (owned_alive p v own)
  Step-IsValid {s} (register p rp) v = try_register_in-IsValid p rp s.world s.roots v
  Step-IsValid {s} (discard p rest same) v = drop-IsValid p s.world rest (reorder same v)

  -- Memory is valid in every state that a program reaches from valid memory.
  pub Reach-IsValid :
      {s t : State S N E} → Reach s t → IsValid s.roots s.world.heap → IsValid t.roots t.world.heap
  Reach-IsValid begin v = v
  Reach-IsValid (extend r step) v = Step-IsValid step (Reach-IsValid r v)

  Step-Later :
      {s t : State S N E}
      → Step s t
      → IsValid s.roots s.world.heap
      → Later s.world.heap t.world.heap
  Step-Later {s} (create value parents rest same) v = with_parents-Later value parents s.world.heap
  Step-Later {s} (copy p own) v = clone-Later p s.world.heap (owned_alive p v own)
  Step-Later {s} (upgraded p got) v = upgrade-Later p s.world.heap
  Step-Later {s} (outgoing p own) v = all_outgoing-Later p s.world.heap
  Step-Later {s} (register p rp) v = try_register_in-Later p rp s.world
  Step-Later {s} (discard p rest same) v = drop-Later p s.world

  pub Reach-Later :
      {s t : State S N E}
      → Reach s t
      → IsValid s.roots s.world.heap
      → Later s.world.heap t.world.heap
  Reach-Later {s} begin v = Later-refl s.world.heap
  Reach-Later (extend r step) v =
      Later-trans (Reach-Later r v) (Step-Later step (Reach-IsValid r v))

  -- In every state that a program reaches from valid memory, a node is alive exactly if the program
  -- owns a handle to it or to one of its descendants.
  pub Reach-alive :
      {s t : State S N E} (p : Ptr)
      → Reach s t
      → IsValid s.roots s.world.heap
      → (0 < strong_count t.world.heap p) ↔ Held t.roots t.world.heap p
  Reach-alive p r v = alive_iff (Reach-IsValid r v).counts p

  -- A node that is alive after some steps has the value and the incoming edges that it had before.
  pub Reach-made :
      {s t : State S N E} (p : Ptr)
      → Reach s t
      → IsValid s.roots s.world.heap
      → p < length s.world.heap
      → 0 < strong_count t.world.heap p
      → (0 < strong_count s.world.heap p) × (made t.world.heap p ≡ made s.world.heap p)
  Reach-made p r v lt alive =
      let later = Reach-Later r v in ground (arith, later.same p, later.dead p)
