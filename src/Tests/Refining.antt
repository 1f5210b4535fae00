-- ===== src/Tests/Refining.antt =====
-- Calls of a registry (src/registry.rs), and the theorem about them at a concrete input.
use relrc.Prelude.{ℕ, ◌≡◌, refl, false, some, List, [], ◌∷◌}
use relrc.SlotMap.Reference.{slots}
use relrc.Registry
use relrc.Registry.{Registry}
use relrc.Registry.Bijection.{Bijective, new-Bijective}
use relrc.Registry.Refining.{
  Call, register, find, ask, forget, key, maybe_key, truth, nothing, Trace, view, perform_all,
}
use relrc.Registry.Refining.{perform_all-Trace}

-- Two nodes; the first is forgotten, and registered again under another id.
abbrev calls : List (Call ℕ)
calls = register 5 ∷ register 6 ∷ register 5 ∷ find 6 ∷ forget 0 ∷ ask 5 ∷ register 5 ∷ []

answers :
    (perform_all calls (Registry.new slots)).0
    ≡ (register 5, key 0)
      ∷ (register 6, key 1)
      ∷ (register 5, key 0)
      ∷ (find 6, maybe_key (some 1))
      ∷ (forget 0, nothing)
      ∷ (ask 5, truth false)
      ∷ (register 5, key 2)
      ∷ []
unfolding perform_all Registry.new
answers = refl

perform_all-Trace_example :
    Trace slots
      (view (Registry.new slots))
      (perform_all calls (Registry.new slots)).0
      (view (perform_all calls (Registry.new slots)).1)
    × Bijective (perform_all calls (Registry.new slots)).1
perform_all-Trace_example = perform_all-Trace calls (Registry.new slots) (new-Bijective slots)
