-- ===== src/Counts/Creating.antt =====
-- `new`, `with_parents`, `clone` and `upgrade` of src/node.rs keep the counts right.
use relrc.Prelude.{
  ℕ, suc, ◌+◌, ◌<◌, ◌≡◌, refl, inl, inr, ◌⊎◌, none, some, List, [], ◌∷◌, ◌++◌, arith, ◌==◌,
  get_elem?, get_elem?-concat, get_elem?_beyond, lt-length_of_get_elem?, All-of_count, ==_iff,
  count, count-append, Option-cases, Bool-cases, length, map, ap,
}
use relrc.Object.{
  Ptr, RcBox, InnerData, InnerEdgeData, Heap, sources, strong_count, edge_refs, clone, upgrade,
}
use relrc.Node.{
  with_parents, new, inner_new, incoming_edges, register_from, with_incoming, allocate,
}
use relrc.Counts.{IsCounted}
use relrc.Counts.Update.{IsCounted-increment, IsCounted-keep}

abbrev pub handles : {E : Type 0} → List (Ptr × E) → List Ptr
handles ps = map (λ p. p.0) ps

pub sources-incoming_edges :
    {E : Type 0} (node : Ptr) (ps : List (Ptr × E)) → sources (incoming_edges node ps) ≡ handles ps
unfolding incoming_edges
sources-incoming_edges node [] = refl
sources-incoming_edges node (p ∷ ps) = ap (λ qs. p.0 ∷ qs) (sources-incoming_edges node ps)

module _ {N E : Type 0} where
  edge_refs-concat :
      (h : Heap N E) (b : RcBox N E) (p : Ptr)
      → edge_refs (h ++ b ∷ []) p ≡ edge_refs h p + count p (sources b.inner.incoming)
  edge_refs-concat [] b p = omega arith
  edge_refs-concat (a ∷ h) b p = omega (arith, edge_refs-concat h b p)

  pub owned-lt-length :
      {roots : List Ptr} {h : Heap N E} (p : Ptr)
      → IsCounted roots h
      → 0 < count p roots
      → p < length h
  owned-lt-length {h} p c own = elim (Option-cases (get_elem? h p)) [
    | inl e ↦ absurd (ground (arith, c.counted p))
    | inr (b, e) ↦ lt-length_of_get_elem? h p e
  ]

  -- The handles of the sources move from the program into the edges of the new box.
  allocate-IsCounted :
      (h : Heap N E) (inner : InnerData N E) (roots : List Ptr)
      → IsCounted (sources inner.incoming ++ roots) h
      → IsCounted (length h ∷ roots) (allocate inner h).1
  allocate-IsCounted h inner roots c =
      let box : RcBox N E = record { strong = 1; inner = inner } in
      record {
        counted = λ p. ground (
          arith,
          c.counted p,
          edge_refs-concat h box p,
          count-append p (sources inner.incoming) roots,
          get_elem?-concat h box p,
          get_elem?_beyond h (length h),
        );
        ordered = λ p. rw (get_elem?-concat h box p) (elim (Bool-cases (p == length h)) [
          | inl new ↦ rw new (
              All-of_count (sources inner.incoming) λ q found.
                let in_range : q < length h =
                  owned-lt-length q c
                    (omega (arith, count-append q (sources inner.incoming) roots)) in
                let same : p ≡ length h = (==_iff p (length h)).0 new in omega arith)
          | inr old ↦ rw old (c.ordered p)
        ]);
        freed = λ p z. ground (arith, c.freed p, get_elem?-concat h box p);
      }

  register_from-IsCounted :
      (i : ℕ) (es : List (InnerEdgeData E)) (h : Heap N E) (roots : List Ptr)
      → IsCounted roots h
      → IsCounted roots (register_from i es h)
  unfolding register_from
  register_from-IsCounted i [] h roots c = c
  register_from-IsCounted i (e ∷ es) h roots c =
      register_from-IsCounted (suc i) es _ roots (IsCounted-keep c e.source _ (λ b. (refl, refl)))

  -- `new` owns one handle more.
  pub new-IsCounted :
      (value : N) (h : Heap N E) (roots : List Ptr)
      → IsCounted roots h
      → IsCounted ((new value h).0 ∷ roots) (new value h).1
  unfolding new
  new-IsCounted value h roots c = allocate-IsCounted h (inner_new value) roots c

  -- `with_parents` takes the parents' handles and owns one handle, to the new node.
  pub with_parents-IsCounted :
      (value : N) (parents : List (Ptr × E)) (h : Heap N E) (roots : List Ptr)
      → IsCounted (handles parents ++ roots) h
      → IsCounted ((with_parents value parents h).0 ∷ roots) (with_parents value parents h).1
  unfolding with_parents
  with_parents-IsCounted value parents h roots c =
      let es : List (InnerEdgeData E) = incoming_edges (length h) parents in
      register_from-IsCounted 0 es _ _ (
        allocate-IsCounted h (with_incoming value es) roots
          (rw (sources-incoming_edges (length h) parents) c))

module _ {N E : Type 0} {h : Heap N E} {roots : List Ptr} (c : IsCounted roots h) (p : Ptr) where
  -- `clone` of a handle that is alive owns it once more.
  pub clone-IsCounted : 0 < strong_count h p → IsCounted (p ∷ roots) (clone p h)
  unfolding clone
  clone-IsCounted alive = IsCounted-increment c alive

  -- `upgrade` owns what it returns: a handle more if the node is alive, and otherwise nothing.
  pub upgrade-IsCounted :
      ((upgrade p h).0 ≡ some p) × (0 < strong_count h p) × IsCounted (p ∷ roots) (upgrade p h).1
      ⊎ ((upgrade p h).0 ≡ none) × (strong_count h p ≡ 0) × ((upgrade p h).1 ≡ h)
  unfolding upgrade
  upgrade-IsCounted = elim (Bool-cases (strong_count h p == 0)) [
    | inl dead ↦ rw dead (inr (refl, (==_iff _ 0).0 dead, refl))
    | inr alive ↦
        let live : 0 < strong_count h p = ground arith in
        rw alive (inl (refl, live, clone-IsCounted live))
  ]
