-- ===== src/Program.antt =====
-- Programs over src/node.rs: the handles that a program owns, and the world, change by the
-- operations, in any order.
pub mod Later
pub mod Running
pub mod Bounding
use relrc.Prelude.{ℕ, ◌+◌, ◌<◌, ◌≡◌, Option, some, List, [], ◌∷◌, ◌++◌, count}
use relrc.SlotMap.{SlotMaps}
use relrc.Object.{Ptr, Heap, strong_count, clone, upgrade}
use relrc.World.{World}
use relrc.Node.{new, with_parents, all_outgoing}
use relrc.Drop.{drop, try_register_in}
use relrc.Counts.Creating.{handles}
use relrc.Links.Raising.{targets}

pub record State (S : SlotMaps) (N E : Type 0) : Type 0 where
  pub roots : List Ptr
  pub world : World S N E

-- The same handles, in another order.
abbrev pub Same : List Ptr → List Ptr → Type 0
Same rs qs = (p : Ptr) → count p qs ≡ count p rs

abbrev pub with_heap : {S : SlotMaps} {N E : Type 0} → World S N E → Heap N E → World S N E
with_heap w h = record w { heap = h }

module _ {S : SlotMaps} {N E : Type 0} where
  pub data Step (s : State S N E) : State S N E → Type 0 where
    -- `with_parents` with handles that the program owns; `new`, with none.
    create :
        (value : N) (parents : List (Ptr × E)) (rest : List Ptr)
        → Same s.roots (handles parents ++ rest)
        → Step s (record {
          roots = (with_parents value parents s.world.heap).0 ∷ rest;
          world = with_heap s.world (with_parents value parents s.world.heap).1;
        })
    -- `clone` of a handle that the program owns
    copy :
        (p : Ptr)
        → 0 < count p s.roots
        → Step s (record { roots = p ∷ s.roots; world = with_heap s.world (clone p s.world.heap) })
    -- `upgrade` of a weak reference, where it returns a handle
    upgraded :
        (p : Ptr)
        → (upgrade p s.world.heap).0 ≡ some p
        → Step s
            (record { roots = p ∷ s.roots; world = with_heap s.world (upgrade p s.world.heap).1 })
    -- `all_outgoing` of a node that the program has a handle to
    outgoing :
        (p : Ptr)
        → 0 < count p s.roots
        → Step s (record {
          roots = targets (all_outgoing p s.world.heap).0 ++ s.roots;
          world = with_heap s.world (all_outgoing p s.world.heap).1;
        })
    -- `try_register_in`
    register :
        (p rp : Ptr) → Step s (record { roots = s.roots; world = (try_register_in p rp s.world).1 })
    -- A handle goes out of scope.
    discard :
        (p : Ptr) (rest : List Ptr)
        → Same s.roots (p ∷ rest)
        → Step s (record { roots = rest; world = drop p s.world })

  pub data Reach (s : State S N E) : State S N E → Type 0 where
    begin : Reach s s
    extend : {t u : State S N E} → Reach s t → Step t u → Reach s u
