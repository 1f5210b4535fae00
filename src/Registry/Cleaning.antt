-- ===== src/Registry/Cleaning.antt =====
-- What `free_node_ids` of src/registry.rs leaves in a registry.
use mathlib.Core.List.{Memᴰ}
use mathlib.Core.List.Memᴰ
use relrc.Prelude.{
  ◌<◌, ◌≡◌, ◌↔◌, refl, sym, ap, ◌∙◌, subst, inl, inr, some, List, [], ◌∷◌, arith, ◌==◌, ==_iff,
  Bool-cases, length,
}
use relrc.SlotMap.{SlotMaps}
use relrc.Object.{Ptr, Heap, strong_count, upgrade}
use relrc.Registry.{
  Registry, PtrMap, map_remove, dead_entries, remove_ids, remove_ptrs, free_node_ids, len,
}
use relrc.Registry.Bijection.{Bijective}

module _ {K N E : Type 0} (h : Heap N E) where
  dead_entries-dead :
      (es : List (K × Ptr)) (i : K) (p : Ptr)
      → Memᴰ (i, p) (dead_entries h es)
      → Memᴰ (i, p) es × (strong_count h p ≡ 0)
  unfolding dead_entries upgrade
  dead_entries-dead [] i p there = absurd (Memᴰ.not-nil there)
  dead_entries-dead ((k, q) ∷ es) i p there = elim (Bool-cases (strong_count h q == 0)) [
    | inl dead ↦
        let is : dead_entries h ((k, q) ∷ es) ≡ (k, q) ∷ dead_entries h es = rw dead refl in
        elim (Memᴰ.cases_cons (subst (λ ds. Memᴰ (i, p) ds) is there)) [
          | inl here ↦ (
            Memᴰ.head here,
            ap (λ e. strong_count h e.1) here ∙ (==_iff (strong_count h q) 0).0 dead,
          )
          | inr later ↦ let (listed, z) = dead_entries-dead es i p later in (Memᴰ.tail listed, z)
        ]
    | inr live ↦
        let is : dead_entries h ((k, q) ∷ es) ≡ dead_entries h es = rw live refl in
        let (listed, z) = dead_entries-dead es i p (subst (λ ds. Memᴰ (i, p) ds) is there) in
        (Memᴰ.tail listed, z)
  ]

  dead_entries-listed :
      (es : List (K × Ptr)) (i : K) (p : Ptr)
      → Memᴰ (i, p) es
      → strong_count h p ≡ 0
      → Memᴰ (i, p) (dead_entries h es)
  unfolding dead_entries upgrade
  dead_entries-listed [] i p there z = absurd (Memᴰ.not-nil there)
  dead_entries-listed ((k, q) ∷ es) i p there z = elim (Bool-cases (strong_count h q == 0)) [
    | inl dead ↦ rw dead (elim (Memᴰ.cases_cons there) [
      | inl here ↦ Memᴰ.head here
      | inr later ↦ Memᴰ.tail (dead_entries-listed es i p later z)
    ])
    | inr live ↦ rw live (elim (Memᴰ.cases_cons there) [
      | inl here ↦ absurd (ground (arith, ap (λ e. strong_count h e.1) here))
      | inr later ↦ dead_entries-listed es i p later z
    ])
  ]

module _ {K : Type 0} where
  remove_ptrs_iff :
      (m : PtrMap K) (es : List (K × Ptr)) (p : Ptr) (i : K)
      → (remove_ptrs m es p ≡ some i) ↔ ((m p ≡ some i) × ((j : K) → Memᴰ (j, p) es → ⊥))
  unfolding remove_ptrs
  remove_ptrs_iff m [] p i = (λ at. (at, λ j there. Memᴰ.not-nil there), λ (at, out). at)
  remove_ptrs_iff m ((k, q) ∷ es) p i =
      let rest = remove_ptrs_iff (map_remove m q) es p i in
      elim (Bool-cases (q == p)) [
        | inl same ↦ (
          λ at. let (before, out) = rest.0 at in absurd (ground arith),
          λ (at, out). absurd (out k (Memᴰ.head (ap (λ r. (k, r)) (sym ((==_iff q p).0 same))))),
        )
        | inr other ↦ (
          λ at.
              let (before, out) = rest.0 at in
              (
                ground arith,
                λ j there. elim (Memᴰ.cases_cons there) [
                  | inl here ↦ ground (arith, ==_iff q p, ap (λ e. e.1) here)
                  | inr later ↦ out j later
                ],
              ),
          λ (at, out). rest.1 (ground arith, λ j later. out j (Memᴰ.tail later)),
        )
      ]

module _ (S : SlotMaps) where
  remove_ids_iff :
      (m : S.SlotMap Ptr) (es : List (S.Key × Ptr)) (i : S.Key) (p : Ptr)
      → (S.get Ptr (remove_ids S m es) i ≡ some p)
        ↔ ((S.get Ptr m i ≡ some p) × ((q : Ptr) → Memᴰ (i, q) es → ⊥))
  unfolding remove_ids
  remove_ids_iff m [] i p = (λ at. (at, λ q there. Memᴰ.not-nil there), λ (at, out). at)
  remove_ids_iff m ((k, q) ∷ es) i p =
      let rest = remove_ids_iff (S.remove Ptr m k).1 es i p in
      elim (Bool-cases (S.key_eq k i)) [
        | inl same ↦ (
          λ at. let (before, out) = rest.0 at in absurd (ground (arith, S.get-remove Ptr m k i)),
          λ (at, out).
              absurd (out q (Memᴰ.head (ap (λ j. (j, q)) (sym ((S.key_eq_iff k i).0 same))))),
        )
        | inr other ↦ (
          λ at.
              let (before, out) = rest.0 at in
              (
                ground (arith, S.get-remove Ptr m k i),
                λ r there. elim (Memᴰ.cases_cons there) [
                  | inl here ↦ ground (arith, S.key_eq_iff k i, ap (λ e. e.0) here)
                  | inr later ↦ out r later
                ],
              ),
          λ (at, out).
              rest.1 (ground (arith, S.get-remove Ptr m k i), λ r later. out r (Memᴰ.tail later)),
        )
      ]

module _ {S : SlotMaps} {N E : Type 0} (r : Registry S) (h : Heap N E) (b : Bijective r) where
  abbrev dead : List (S.Key × Ptr)
  dead = dead_entries h (S.iter Ptr r.nodes)

  dead_lem :
      (i : S.Key) (p : Ptr)
      → Memᴰ (i, p) dead ↔ ((S.get Ptr r.nodes i ≡ some p) × (strong_count h p ≡ 0))
  dead_lem i p = (
    λ there.
        let (listed, z) = dead_entries-dead h (S.iter Ptr r.nodes) i p there in
        (S.get-iter Ptr r.nodes i p listed, z),
    λ (at, z). dead_entries-listed h (S.iter Ptr r.nodes) i p (S.iter-get Ptr r.nodes i p at) z,
  )

  -- Exactly the entries whose node is alive are left.
  left_iff :
      (i : S.Key) (p : Ptr)
      → (S.get Ptr (remove_ids S r.nodes dead) i ≡ some p)
        ↔ ((S.get Ptr r.nodes i ≡ some p) × (0 < strong_count h p))
  left_iff i p =
      let iff = remove_ids_iff S r.nodes dead i p in
      (
        λ at.
            let (before, out) = iff.0 at in
            (
              before,
              elim (Bool-cases (strong_count h p == 0)) [
                | inl gone ↦
                    absurd (out p ((dead_lem i p).1 (before, (==_iff (strong_count h p) 0).0 gone)))
                | inr live ↦ ground arith
              ],
            ),
        λ (at, alive). iff.1 (
          at,
          λ q there.
              let (at_q, z) = (dead_lem i q).0 there in
              let same : p ≡ q = ground arith in
              absurd (omega (arith, subst (λ n. 0 < strong_count h n) same alive)),
        ),
      )

  left-Bijective :
      Bijective {S = S}
        (record { nodes = remove_ids S r.nodes dead; ptr_to_id = remove_ptrs r.ptr_to_id dead })
  left-Bijective = record {
    id_of = λ i p at.
        let (before, alive) = (left_iff i p).0 at in
        (remove_ptrs_iff r.ptr_to_id dead p i).1
          (b.id_of i p before, λ j there. absurd (omega (arith, ((dead_lem j p).0 there).1)));
    ptr_of = λ i p at.
        let (before, out) = (remove_ptrs_iff r.ptr_to_id dead p i).0 at in
        let listed = b.ptr_of i p before in
        (remove_ids_iff S r.nodes dead i p).1 (
          listed,
          λ q there.
              let (at_q, z) = (dead_lem i q).0 there in
              let same : q ≡ p = ground arith in out i (subst (λ n. Memᴰ (i, n) dead) same there),
        );
  }

-- Where the two maps of a registry agree, `free_node_ids` leaves exactly the entries whose node is
-- alive, each under its id; the two maps agree again, and the number of the entries left is returned.
pub free_node_ids-Bijective :
    {S : SlotMaps} {N E : Type 0} (r : Registry S) (h : Heap N E)
    → Bijective r
    → let out = free_node_ids r h in
      Bijective out.1
      × ((i : S.Key) (p : Ptr)
          → (S.get Ptr out.1.nodes i ≡ some p)
            ↔ ((S.get Ptr r.nodes i ≡ some p) × (0 < strong_count h p)))
      × (out.0 ≡ length (S.iter Ptr out.1.nodes))
unfolding free_node_ids len
free_node_ids-Bijective {S} r h b =
    (left-Bijective r h b, left_iff r h b, S.len-iter Ptr (remove_ids S r.nodes (dead r h b)))
