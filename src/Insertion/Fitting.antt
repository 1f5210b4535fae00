-- ===== src/Insertion/Fitting.antt =====
-- The states in which `insert_node` and `insert_ancestors` of src/history.rs do not panic, and that
-- counting references, dropping handles and registering nodes lead to such states only.
use relrc.Prelude.{
  ℕ, zero, suc, ◌<◌, ◌≡◌, ◌⊎◌, inl, inr, refl, ◌==◌, true, Option, none, some, List, [], ◌∷◌, arith,
  ltb, modify, get_elem?, get_elem?-modify, Option-cases, Bool-cases, All, All-map, subst,
}
use relrc.SlotMap.{SlotMaps}
use relrc.Object.{
  Ptr, RcBox, Heap, sources, strong_count, deref, over_inner, increment, decrement, clone,
}
use relrc.Registry.{Registry}
use relrc.World.{World, registry_at, put_registry}
use relrc.Counts.{box_sources, sources_at}
use relrc.Tracking.{registry_of, registry_at-put}
use relrc.Drop.{free, set_registry, parents_of, forget, unregister, each, release, drop}

abbrev pub field : {N E : Type 0} → Option (RcBox N E) → Option Ptr
field none = none
field (some b) = b.inner.registry

abbrev pub field_at : {N E : Type 0} → Heap N E → Ptr → Option Ptr
field_at h p = field (get_elem? h p)

-- The registry `rp` is alive, no node is in another one, and parents are older than their children.
pub record Fits {S : SlotMaps} {N E : Type 0} (rp : Ptr) (w : World S N E) : Type 0 where
  pub present : (r : Registry S) × (registry_at w rp ≡ some r)
  pub own : (p q : Ptr) → field_at w.heap p ≡ some q → q ≡ rp
  pub older : (p : Ptr) → All (λ q. q < p) (sources_at w.heap p)

-- A change of a box that keeps the boxes fitting.
pub record Mild {N E : Type 0} (rp : Ptr) (b c : RcBox N E) : Type 0 where
  registry : (q : Ptr) → c.inner.registry ≡ some q → (b.inner.registry ≡ some q) ⊎ (q ≡ rp)
  incoming : (sources c.inner.incoming ≡ sources b.inner.incoming) ⊎ (sources c.inner.incoming ≡ [])

module _ {S : SlotMaps} {N E : Type 0} (rp : Ptr) where
  pub modify-Fits :
      (w : World S N E) (p : Ptr) (f : RcBox N E → RcBox N E)
      → ((b : RcBox N E) → Mild rp b (f b))
      → Fits rp w
      → Fits rp (record w { heap = modify w.heap p f })
  modify-Fits w p f mild fits = record {
    present = fits.present;
    own = λ q r at. elim (Option-cases (get_elem? w.heap q)) [
      | inl e ↦ ground (arith, get_elem?-modify w.heap p q f, fits.own q r)
      | inr (b, e) ↦
          ground (arith, get_elem?-modify w.heap p q f, (mild b).registry r, fits.own q r)
    ];
    older = λ q. elim (Option-cases (get_elem? w.heap q)) [
      | inl e ↦
          rw (get_elem?-modify w.heap p q f, e)
            (elim (Bool-cases (p == q)) [ inl same ↦ rw same tt | inr apart ↦ rw apart tt ])
      | inr (b, e) ↦
          let before = subst (λ o. All (λ a. a < q) (box_sources o)) e (fits.older q) in
          rw (get_elem?-modify w.heap p q f, e)
            (elim (Bool-cases (p == q)) [
              | inl same ↦
                  rw same
                    (elim (mild b).incoming [ inl kept ↦ rw kept before | inr gone ↦ rw gone tt ])
              | inr apart ↦ rw apart before
            ])
    ];
  }

module _ {S : SlotMaps} {N E : Type 0} (rp : Ptr) where
  pub increment-Fits :
      (w : World S N E) (p : Ptr) → Fits rp w → Fits rp (record w { heap = clone p w.heap })
  unfolding clone
  increment-Fits w p =
      modify-Fits rp w p increment (λ b. record { registry = λ q at. inl at; incoming = inl refl })

  decrement-Fits :
      (w : World S N E) (p : Ptr)
      → Fits rp w
      → Fits rp (record w { heap = modify w.heap p decrement })
  decrement-Fits w p =
      modify-Fits rp w p decrement (λ b. record { registry = λ q at. inl at; incoming = inl refl })

  free-Fits :
      (w : World S N E) (p : Ptr) → Fits rp w → Fits rp (record w { heap = modify w.heap p free })
  free-Fits w p =
      modify-Fits rp w p free (λ b. record { registry = λ q at. inl at; incoming = inr refl })

  pub set-Fits :
      (w : World S N E) (p : Ptr)
      → Fits rp w
      → Fits rp (record w { heap = modify w.heap p (over_inner (set_registry (some rp))) })
  set-Fits w p =
      modify-Fits rp w p (over_inner (set_registry (some rp)))
        (λ b. record { registry = λ q at. inr (ground (arith, at)); incoming = inl refl })

  unset-Fits :
      (w : World S N E) (p : Ptr)
      → Fits rp w
      → Fits rp (record w { heap = modify w.heap p (over_inner (set_registry none)) })
  unset-Fits w p =
      modify-Fits rp w p (over_inner (set_registry none))
        (λ b. record { registry = λ q at. inl (ground (arith, at)); incoming = inl refl })

  pub put-Fits :
      (w : World S N E) (q : Ptr) (r : Registry S) {old : Registry S}
      → registry_at w q ≡ some old
      → Fits rp w
      → Fits rp (put_registry w q r)
  put-Fits w q r there fits = record {
    present = elim (Bool-cases (q == rp)) [
      | inl same ↦ (r, ground (arith, registry_at-put w q rp r there))
      | inr apart ↦ (fits.present.0, ground (arith, registry_at-put w q rp r there, fits.present.1))
    ];
    own = fits.own;
    older = fits.older;
  }

  unregister-Fits : (p : Ptr) (w : World S N E) → Fits rp w → Fits rp (unregister p w)
  unfolding unregister
  unregister-Fits p w fits =
      let unset = unset-Fits w p fits in
      elim (Option-cases (registry_of w.heap p)) [
        | inl e ↦ rw e unset
        | inr (q, e) ↦ elim (Option-cases (registry_at w q)) [
          | inl gone ↦ rw (e, gone) unset
          | inr (r, there) ↦
              rw (e, there)
                (put-Fits (record w { heap = modify w.heap p (over_inner (set_registry none)) }) q
                  (forget r p) there unset)
        ]
      ]

  each-Fits :
      (f : Ptr → World S N E → World S N E)
      → ((p : Ptr) (w : World S N E) → Fits rp w → Fits rp (f p w))
      → (ps : List Ptr) (w : World S N E) → Fits rp w
      → Fits rp (each f ps w)
  unfolding each
  each-Fits f one [] w fits = fits
  each-Fits f one (p ∷ ps) w fits = each-Fits f one ps (f p w) (one p w fits)

  release-Fits : (depth : ℕ) (p : Ptr) (w : World S N E) → Fits rp w → Fits rp (release depth p w)
  unfolding release
  release-Fits zero p w fits = fits
  release-Fits (suc depth) p w fits = elim (Bool-cases (ltb 1 (strong_count w.heap p))) [
    | inl more ↦ rw (more, release) (decrement-Fits w p fits)
    | inr last ↦
        rw (last, release)
          (each-Fits (release depth) (release-Fits depth) (parents_of (deref w.heap p)) _
            (free-Fits (unregister p w) p (unregister-Fits p w fits)))
  ]

  pub drop-Fits : (p : Ptr) (w : World S N E) → Fits rp w → Fits rp (drop p w)
  unfolding drop
  drop-Fits p w = release-Fits (suc p) p w

  pub own-registry_of :
      (w : World S N E) (p q : Ptr) → Fits rp w → registry_of w.heap p ≡ some q → (q == rp) ≡ true
  own-registry_of w p q fits at = elim (Option-cases (get_elem? w.heap p)) [
    | inl e ↦ ground arith
    | inr (b, e) ↦ ground (arith, fits.own p q)
  ]

  pub parents_below :
      (w : World S N E) (fits : Fits rp w) (p n : ℕ)
      → p < suc n
      → All (λ q. q < n) (parents_of (deref w.heap p))
  parents_below w fits p n enough = elim (Option-cases (get_elem? w.heap p)) [
    | inl e ↦ rw e tt
    | inr (b, e) ↦
        let before =
          All-map (sources b.inner.incoming) (λ q below. omega arith)
            (subst (λ o. All (λ a. a < p) (box_sources o)) e (fits.older p)) in
        rw e (elim (Bool-cases (b.strong == 0)) [
          | inl dead ↦ rw dead tt
          | inr alive ↦ rw alive before
        ])
  ]
