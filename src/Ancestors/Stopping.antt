-- ===== src/Ancestors/Stopping.antt =====
-- Where the iterator of `all_ancestors` stops, and what it has yielded by then.
use relrc.Prelude.{
  ℕ, suc, ◌-◌, ◌<◌, ◌≤◌, ◌≡◌, ◌≢◌, refl, inr, true, some, List, [], ◌∷◌, ◌++◌, arith, mem, length,
  count, All, subst,
}
use relrc.Object.{Ptr, Heap, deref}
use relrc.Drop.{parents_of}
use relrc.Counts.{IsCounted}
use relrc.Counts.Reach.{Reaches, here, up}
use relrc.Counts.Creating.{owned-lt-length}
use relrc.Ancestors.{Walk, next, collect, start, all_ancestors}
use relrc.Ancestors.Walking.{Known, Closed, unseen_le, IsRun, collect-IsRun}

module _ {N E : Type 0} {h : Heap N E} {roots : List Ptr} (c : IsCounted roots h) (root : Ptr)
    (own : 0 < count root roots) where
  Known-of_reach :
      (seen : List Ptr) (q : Ptr)
      → Known c root seen [] root
      → Closed c root seen []
      → Reaches h root q
      → mem q seen ≡ true
  Known-of_reach seen q first closed here = ground arith
  Known-of_reach seen q first closed (up {q = below} path edge) =
      ground (arith, closed below (Known-of_reach seen below first closed path) q edge)

  ancestors-IsRun :
      (out : List Ptr) × (end : Walk) × (all_ancestors h root ≡ some (out, end))
      × IsRun c root [] (root ∷ []) out end
  unfolding all_ancestors
  ancestors-IsRun =
      collect-IsRun c root (suc (length h)) [] (root ∷ []) ((here, owned-lt-length root c own), tt)
        (omega (arith, unseen_le (length h) []))

  -- Where counts are right, the iterator of `all_ancestors` comes from a handle that the program owns
  -- to its first `None`, and by then it has yielded only the node and ancestors of it, none of them
  -- twice.
  pub all_ancestors-ends :
      (out : List Ptr) × (end : Walk) × (all_ancestors h root ≡ some (out, end))
      × All (Reaches h root) out
      × ((q : Ptr) → count q out ≤ 1)
  all_ancestors-ends =
      let (out, end, e, run) = ancestors-IsRun in
      (out, end, e, run.reached, λ q. ground (arith, run.tally q))

  -- Where counts are right and the queue is empty when the iterator of `all_ancestors` of a handle
  -- that the program owns comes to its first `None`, it has yielded the node and every ancestor of it
  -- once.
  pub all_ancestors_complete :
      (out : List Ptr) (end : Walk)
      → all_ancestors h root ≡ some (out, end)
      → end.stack ≡ []
      → (q : Ptr) → Reaches h root q
      → count q out ≡ 1
  all_ancestors_complete out end ran empty q path =
      let (out', end', e, run) = ancestors-IsRun in
      let same : end' ≡ end = ground arith in
      let empty' : end'.stack ≡ [] = ground arith in
      let first =
        subst (λ s. Known c root end'.seen s root) empty' (run.carried root (inr (ground arith))) in
      let closed =
        subst (λ s. Closed c root end'.seen s) empty'
          (run.closed (λ q is. absurd (ground arith))) in
      let seen = Known-of_reach end'.seen q first closed path in ground (arith, run.tally q)

module _ {N E : Type 0} (h : Heap N E) (d a : Ptr) (rest : List Ptr) where
  abbrev stopped : Walk
  stopped = record { seen = a ∷ d ∷ []; stack = rest ++ parents_of (deref h a) }

  collect-stopped :
      (fuel : ℕ)
      → a ≢ d
      → parents_of (deref h d) ≡ a ∷ a ∷ rest
      → collect h (suc (suc (suc fuel))) (start d) ≡ some (d ∷ a ∷ [], stopped)
  unfolding collect next
  collect-stopped fuel ne twice = ground arith

  -- If the first two edges of a node come from one parent, the iterator yields the node and that
  -- parent, and then stops, whatever other parents the node has.
  pub all_ancestors-stops :
      a ≢ d
      → 1 < length h
      → parents_of (deref h d) ≡ a ∷ a ∷ rest
      → (end : Walk) × (all_ancestors h d ≡ some (d ∷ a ∷ [], end))
        × (end.stack ≡ rest ++ parents_of (deref h a))
  unfolding all_ancestors
  all_ancestors-stops ne two twice =
      let fuel : length h ≡ suc (suc (length h - 2)) = omega arith in
      (stopped, rw fuel (collect-stopped (length h - 2) ne twice), refl)
