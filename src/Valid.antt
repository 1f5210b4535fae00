-- ===== src/Valid.antt =====
-- Memory as src/node.rs keeps it: the counts fit the handles that the program owns, and the lists
-- of outgoing edges fit the incoming edges. Each operation keeps it so.
use relrc.Prelude.{
  ◌<◌, ◌≡◌, refl, inl, inr, ◌⊎◌, false, Option, none, some, List, [], ◌∷◌, ◌++◌, arith, ◌==◌,
  modify,
}
use relrc.SlotMap.{SlotMaps}
use relrc.Object.{Ptr, Heap, strong_count, clone, upgrade, over_inner}
use relrc.World.{World}
use relrc.Node.{new, with_parents, all_outgoing}
use relrc.Drop.{drop, set_registry}
use relrc.Counts.{IsCounted}
use relrc.Counts.Update.{IsCounted-keep}
use relrc.Counts.Creating.{handles, with_parents-IsCounted, clone-IsCounted, upgrade-IsCounted}
use relrc.Counts.Dropping.{drop-IsCounted}
use relrc.Links.{IsLinked}
use relrc.Links.Keeping.{drop-IsLinked}
use relrc.Links.Linking.{with_parents-IsLinked}
use relrc.Links.Raising.{targets, Raised, modify-Raised, upgrade-Raised}
use relrc.Links.Outgoing.{all_outgoing-IsCounted, all_outgoing-IsLinked}

pub record IsValid {N E : Type 0} (roots : List Ptr) (h : Heap N E) : Type 0 where
  pub counts : IsCounted roots h
  pub links : IsLinked h

pub empty-IsValid : (N E : Type 0) → IsValid {N = N} {E = E} [] []
empty-IsValid N E = record {
  counts = record { counted = λ p. refl; ordered = λ p. tt; freed = λ p z. refl };
  links = record { linked = λ s t i live _. absurd (omega arith); absent = λ s t i live _. refl };
}

module _ {N E : Type 0} where
  IsLinked-Raised : {h g : Heap N E} → Raised h g → IsLinked h → IsLinked g
  IsLinked-Raised r l = record {
    linked = λ s t i live_s live_t.
        ground (arith, r.dead s, r.dead t, r.sources_kept t, r.outgoing_kept s, l.linked s t i);
    absent =
        λ s t i live_s far. ground (arith, r.dead s, r.outgoing_kept s, r.size, l.absent s t i);
  }

  -- `with_parents` takes the parents' handles and owns a handle to the new node.
  pub with_parents-IsValid :
      (value : N) (parents : List (Ptr × E)) (h : Heap N E) (roots : List Ptr)
      → IsValid (handles parents ++ roots) h
      → IsValid ((with_parents value parents h).0 ∷ roots) (with_parents value parents h).1
  with_parents-IsValid value parents h roots v = record {
    counts = with_parents-IsCounted value parents h roots v.counts;
    links = with_parents-IsLinked value parents h roots v.counts v.links;
  }

  -- `new` owns a handle to the new node.
  pub new-IsValid :
      (value : N) (h : Heap N E) (roots : List Ptr)
      → IsValid roots h
      → IsValid ((new value h).0 ∷ roots) (new value h).1
  unfolding new with_parents
  new-IsValid value h roots v = with_parents-IsValid value [] h roots v

module _ {N E : Type 0} {h : Heap N E} {roots : List Ptr} (v : IsValid roots h) (p : Ptr) where
  -- `upgrade` owns a handle more if the node is alive, and otherwise returns nothing.
  pub upgrade-IsValid :
      ((upgrade p h).0 ≡ some p) × IsValid (p ∷ roots) (upgrade p h).1
      ⊎ ((upgrade p h).0 ≡ none) × (strong_count h p ≡ 0) × ((upgrade p h).1 ≡ h)
  upgrade-IsValid = elim (upgrade-IsCounted v.counts p) [
    | inl (got, alive, c) ↦
        inl (got, record { counts = c; links = IsLinked-Raised (upgrade-Raised p h) v.links })
    | inr (got, dead, same) ↦ inr (got, dead, same)
  ]

  -- `clone` of a handle to a node that is alive owns it once more.
  pub clone-IsValid : 0 < strong_count h p → IsValid (p ∷ roots) (clone p h)
  unfolding upgrade
  clone-IsValid alive =
      let test : (strong_count h p == 0) ≡ false = ground arith in
      record {
        counts = clone-IsCounted v.counts p alive;
        links = rw test at (IsLinked-Raised (upgrade-Raised p h) v.links);
      }

  -- `all_outgoing` of a node that is alive owns a handle to the target of each edge it returns.
  pub all_outgoing-IsValid :
      0 < strong_count h p → IsValid (targets (all_outgoing p h).0 ++ roots) (all_outgoing p h).1
  all_outgoing-IsValid alive = record {
    counts = all_outgoing-IsCounted p h v.counts;
    links = all_outgoing-IsLinked p h v.links alive;
  }

-- `drop` gives back the handle.
pub drop-IsValid :
    {S : SlotMaps} {N E : Type 0} (p : Ptr) (w : World S N E) (roots : List Ptr)
    → IsValid (p ∷ roots) w.heap
    → IsValid roots (drop p w).heap
drop-IsValid p w roots v = record {
  counts = drop-IsCounted p w roots v.counts;
  links = drop-IsLinked p w v.links;
}

-- What a node says of its registry does not matter here.
pub register-IsValid :
    {N E : Type 0} {h : Heap N E} {roots : List Ptr}
    → IsValid roots h
    → (p : Ptr) (r : Option Ptr) → IsValid roots (modify h p (over_inner (set_registry r)))
register-IsValid {h} v p r =
    let f = over_inner (set_registry r) in
    record {
      counts = IsCounted-keep v.counts p f (λ b. (refl, refl));
      links = IsLinked-Raised (modify-Raised h p f (λ b. refl) (λ b. refl) (λ b. refl)) v.links;
    }
