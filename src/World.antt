-- ===== src/World.antt =====
-- The state that a program shares: the heap of `RelRc` boxes, and the registries behind
-- `Rc<RefCell<Registry>>`, named by their places in the list.
use relrc.Prelude.{
  ℕ, Option, none, some, List, if◌then◌else◌, ◌==◌, get_elem?, modify, length, [], ◌∷◌, ◌++◌,
}
use relrc.SlotMap.{SlotMaps}
use relrc.Object.{Ptr, Heap}
use relrc.Registry.{Registry}

-- The allocation that an `Rc<RefCell<Registry>>` points to.
pub record RegistryBox (S : SlotMaps) : Type 0 where
  pub strong : ℕ
  pub registry : Registry S

pub record World (S : SlotMaps) (N E : Type 0) : Type 0 where
  pub heap : Heap N E
  pub registries : List (RegistryBox S)

abbrev pub registry_of_box : {S : SlotMaps} → Option (RegistryBox S) → Option (Registry S)
registry_of_box none = none
registry_of_box (some b) = if b.strong == 0 then none else some b.registry

module _ {S : SlotMaps} {N E : Type 0} where
  -- The registry at `rp`, if a strong reference keeps it alive.
  abbrev pub registry_at : World S N E → Ptr → Option (Registry S)
  registry_at w rp = registry_of_box (get_elem? w.registries rp)

  abbrev pub put_registry : World S N E → Ptr → Registry S → World S N E
  put_registry w rp r = record w {
    registries = modify w.registries rp (λ b. record b { registry = r });
  }

  -- `Rc::new(RefCell::new(registry))`, as a registry turns into a shared one.
  unfoldable pub share : Registry S → World S N E → Ptr × World S N E
  share r w = (
    length w.registries,
    record w { registries = w.registries ++ record { strong = 1; registry = r } ∷ [] },
  )
