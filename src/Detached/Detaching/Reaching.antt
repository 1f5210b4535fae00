-- ===== src/Detached/Detaching/Reaching.antt =====
-- The ancestors of a node up to the nodes that it is detached from (src/detached.rs).
use relrc.Prelude.{◌<◌, ◌≡◌, ◌⊎◌, inl, inr, false, List, ◌∷◌, arith, ltb, count, Bool-cases}
use relrc.Object.{Ptr, Heap, deref}
use relrc.Drop.{parents_of}
use relrc.Mpi.Message.{Hashes}
use relrc.Detached.{has}
use relrc.Detached.Detaching.{push_all}
use relrc.Detached.Detaching.Counting.{count-push_all}

module _ (H : Hashes) {N E : Type 0} (h : Heap N E) (hash_id : Ptr → H.RelRcHash)
    (detach_from : List H.RelRcHash) (obj : Ptr) where
  -- A node that is reached from `obj` by edges to parents, where no node on the way, the two at the
  -- ends included, has its hash in `detach_from`
  pub data Upto : Ptr → Type 0 where
    start : {q : Ptr} → q ≡ obj → has H detach_from (hash_id q) ≡ false → Upto q
    climb :
        {p q : Ptr}
        → Upto p
        → 0 < count q (parents_of (deref h p))
        → has H detach_from (hash_id q) ≡ false
        → Upto q

  pub Upto-has : {q : Ptr} → Upto q → has H detach_from (hash_id q) ≡ false
  Upto-has (start same apart) = apart
  Upto-has (climb below edge apart) = apart

  -- The object itself, or a parent of a node that is reached
  abbrev pub Next : Ptr → Type 0
  Next q = (q ≡ obj) ⊎ ((p : Ptr) × Upto p × (0 < count q (parents_of (deref h p))))

  pub Next-Upto : {q : Ptr} → Next q → has H detach_from (hash_id q) ≡ false → Upto q
  Next-Upto (inl same) apart = start same apart
  Next-Upto (inr (p, below, edge)) apart = climb below edge apart

  abbrev pub AllNext : List Ptr → Type 0
  AllNext stack = (q : Ptr) → 0 < count q stack → Next q

  pub push_all-AllNext :
      (p : Ptr) (stack : List Ptr)
      → AllNext (p ∷ stack)
      → has H detach_from (hash_id p) ≡ false
      → AllNext (push_all (parents_of (deref h p)) stack)
  push_all-AllNext p stack next apart q there = elim (Bool-cases (ltb 0 (count q stack))) [
    | inl on_stack ↦ next q (ground arith)
    | inr off ↦ inr (
      p,
      Next-Upto (next p (ground arith)) apart,
      ground (arith, count-push_all q (parents_of (deref h p)) stack),
    )
  ]
