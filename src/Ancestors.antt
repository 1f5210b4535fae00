-- ===== src/Ancestors.antt =====
-- `RelRc::all_ancestors` of src/node.rs: the iterator's state and its `next`, and a loop that runs
-- it to its first `None`, as `for` and `collect` do.
pub mod Walking
pub mod Stopping
use relrc.Prelude.{
  ℕ, zero, suc, Bool, true, false, Option, none, some, List, [], ◌∷◌, ◌++◌, mem, length,
}
use relrc.Object.{Ptr, Heap, deref}
use relrc.Drop.{parents_of}

-- The variables that the closure of `iter::from_fn` captures: `seen` is a set, `stack` a queue.
pub record Walk : Type 0 where
  pub seen : List Ptr
  pub stack : List Ptr

-- `VecDeque::from([self])`, and nothing seen.
abbrev pub start : Ptr → Walk
start p = record { seen = []; stack = p ∷ [] }

module _ {N E : Type 0} (h : Heap N E) where
  -- What follows `stack.pop_front()`.
  abbrev pub visit : Ptr → List Ptr → List Ptr → Option Ptr × Walk
  visit node rest seen = elim (mem node seen) [
    | true ↦ (none, record { seen = seen; stack = rest })
    | false ↦ (some node, record { seen = node ∷ seen; stack = rest ++ parents_of (deref h node) })
  ]

  -- The closure that `iter::from_fn` calls.
  unfoldable pub next : Walk → Option Ptr × Walk
  next w = elim w.stack [ [] ↦ (none, w) | node ∷ rest ↦ visit node rest w.seen ]

  -- The values up to the first `None`, and the state then; `none` if the fuel runs out.
  unfoldable pub collect : ℕ → Walk → Option (List Ptr × Walk)
  unfolding next
  collect zero w = none
  collect (suc fuel) w =
      let (item, w') = next w in
      elim item [
        | none ↦ some ([], w')
        | some p ↦ elim (collect fuel w') [ none ↦ none | some (ps, end) ↦ some (p ∷ ps, end) ]
      ]

  unfoldable pub all_ancestors : Ptr → Option (List Ptr × Walk)
  unfolding collect
  all_ancestors p = collect (suc (length h)) (start p)
