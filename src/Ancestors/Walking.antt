-- ===== src/Ancestors/Walking.antt =====
-- The iterator of `all_ancestors` ends, and yields only the node and its ancestors, each once.
use relrc.Prelude.{
  ℕ, zero, suc, ◌+◌, ◌<◌, ◌≤◌, ◌≡◌, refl, ap, inl, inr, ◌⊎◌, true, false, some, List, [], ◌∷◌, ◌++◌,
  arith, ◌==◌, if◌then◌else◌, mem, length, count, count-append, ==_iff, All, All-append,
  All-of_count, Bool-cases,
}
use relrc.Object.{Ptr, Heap, deref}
use relrc.Drop.{parents_of}
use relrc.Counts.{IsCounted, sources_at}
use relrc.Counts.Dropping.{parents-sources}
use relrc.Counts.Reach.{Reaches, up, lt_of_count}
use relrc.Ancestors.{Walk, collect}

-- How many of the addresses below `n` have not been seen.
abbrev pub unseen : ℕ → List Ptr → ℕ
unseen zero seen = 0
unseen (suc n) seen = (if mem n seen then 0 else 1) + unseen n seen

pub unseen_le : (n : ℕ) (seen : List Ptr) → unseen n seen ≤ n
unseen_le zero seen = omega arith
unseen_le (suc n) seen = ground (arith, unseen_le n seen)

unseen_far : (n : ℕ) (p : Ptr) (seen : List Ptr) → n ≤ p → unseen n (p ∷ seen) ≡ unseen n seen
unseen_far zero p seen far = refl
unseen_far (suc n) p seen far = ground (arith, unseen_far n p seen)

unseen-cons :
    (n : ℕ) (p : Ptr) (seen : List Ptr)
    → p < n
    → mem p seen ≡ false
    → suc (unseen n (p ∷ seen)) ≡ unseen n seen
unseen-cons zero p seen lt new = absurd (omega arith)
unseen-cons (suc n) p seen lt new = ground (arith, unseen-cons n p seen, unseen_far n p seen)

module _ {N E : Type 0} {h : Heap N E} {roots : List Ptr} (c : IsCounted roots h) (root : Ptr) where
  -- What is queued leads up from the root, and was allocated.
  abbrev pub IsQueued : List Ptr → Type 0
  IsQueued = All (λ q. Reaches h root q × (q < length h))

  parents-IsQueued : (q : Ptr) → Reaches h root q → q < length h → IsQueued (parents_of (deref h q))
  parents-IsQueued q path lt = rw (parents-sources q c) (
      All-of_count (sources_at h q) λ p edge. (
        up path edge,
        let below : p < q = lt_of_count p q (sources_at h q) (c.ordered q) edge in omega arith,
      ))

  abbrev pub Known : List Ptr → List Ptr → Ptr → Type 0
  Known seen stack q = (mem q seen ≡ true) ⊎ (0 < count q stack)

  -- The parents of what was seen were seen or are queued.
  abbrev pub Closed : List Ptr → List Ptr → Type 0
  Closed seen stack =
      (q : Ptr) → mem q seen ≡ true → (p : Ptr) → 0 < count p (sources_at h q) → Known seen stack p

  Known-visit :
      (seen rest more : List Ptr) (p q : Ptr)
      → Known seen (p ∷ rest) q
      → Known (p ∷ seen) (rest ++ more) q
  Known-visit seen rest more p q known = ground (arith, count-append q rest more)

  Known-skip :
      (seen rest : List Ptr) (p q : Ptr)
      → mem p seen ≡ true
      → Known seen (p ∷ rest) q
      → Known seen rest q
  Known-skip seen rest p q old known = ground (arith, ==_iff q p)

  Closed-visit :
      (seen rest : List Ptr) (p : Ptr)
      → Closed seen (p ∷ rest)
      → Closed (p ∷ seen) (rest ++ parents_of (deref h p))
  Closed-visit seen rest p closed q is x edge = elim (Bool-cases (q == p)) [
    | inl same ↦
        let here : q ≡ p = (==_iff q p).0 same in
        inr (
          omega (
            arith,
            count-append x rest (parents_of (deref h p)),
            ap (count x) (parents-sources p c),
            ap (λ (a : Ptr). count x (sources_at h a)) here,
          ))
    | inr other ↦ Known-visit seen rest _ p x (closed q (ground arith) x edge)
  ]

  -- What a run of the loop yields: each value is new, and once among the values.
  pub record IsRun (seen stack : List Ptr) (out : List Ptr) (end : Walk) : Type 0 where
    pub tally :
        (q : Ptr) → (if mem q end.seen then 1 else 0) ≡ (if mem q seen then 1 else 0) + count q out
    pub reached : All (Reaches h root) out
    pub carried : (q : Ptr) → Known seen stack q → Known end.seen end.stack q
    pub closed : Closed seen stack → Closed end.seen end.stack

  pub collect-IsRun :
      (fuel : ℕ) (seen stack : List Ptr)
      → IsQueued stack
      → unseen (length h) seen < fuel
      → (out : List Ptr) × (end : Walk) × (collect h fuel (record { seen = seen; stack = stack })
          ≡ some (out, end))
        × IsRun seen stack out end
  unfolding collect
  collect-IsRun zero seen stack queued few = absurd (omega arith)
  collect-IsRun (suc fuel) seen [] queued few = (
    [],
    record { seen = seen; stack = [] },
    refl,
    record {
      tally = λ q. omega arith;
      reached = tt;
      carried = λ q known. known;
      closed = λ closed. closed;
    },
  )
  collect-IsRun (suc fuel) seen (p ∷ rest) queued few = elim (Bool-cases (mem p seen)) [
    | inl old ↦ (
      [],
      record { seen = seen; stack = rest },
      ground arith,
      record {
        tally = λ q. omega arith;
        reached = tt;
        carried = λ q known. Known-skip seen rest p q old known;
        closed = λ closed q is x edge. Known-skip seen rest p x old (closed q is x edge);
      },
    )
    | inr new ↦
        let (path, lt) = queued.0 in
        let (out, end, e, run) =
          collect-IsRun fuel (p ∷ seen) (rest ++ parents_of (deref h p))
            (All-append _ rest _ queued.1 (parents-IsQueued p path lt))
            (omega (arith, unseen-cons (length h) p seen lt new)) in
        (
          p ∷ out,
          end,
          ground arith,
          record {
            tally = λ q. ground (arith, run.tally q);
            reached = (path, run.reached);
            carried = λ q known. run.carried q (Known-visit seen rest _ p q known);
            closed = λ closed. run.closed (Closed-visit seen rest p closed);
          },
        )
  ]
