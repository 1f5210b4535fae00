-- ===== src/Registry/Collecting.antt =====
-- The registry that `from_slotmap` of src/registry.rs makes of nodes that are all different.
use mathlib.Core.List.{Memᴰ}
use mathlib.Core.List.Memᴰ
use relrc.Prelude.{
  ◌≡◌, ◌⊎◌, inl, inr, ap, ◌∙◌, ◌==◌, ==_iff, none, some, List, [], ◌∷◌, arith, Bool-cases,
}
use relrc.SlotMap.{SlotMaps}
use relrc.Object.{Ptr}
use relrc.Registry.{PtrMap, map_insert, collect_ids, from_slotmap}
use relrc.Registry.Bijection.{Bijective}

module _ {K : Type 0} where
  -- An id that is found was listed or there before.
  collect_ids-listed :
      (es : List (K × Ptr)) (m : PtrMap K) (p : Ptr) (k : K)
      → collect_ids m es p ≡ some k
      → Memᴰ (k, p) es ⊎ (m p ≡ some k)
  unfolding collect_ids
  collect_ids-listed [] m p k found = inr found
  collect_ids-listed ((j, q) ∷ es) m p k found =
      elim (collect_ids-listed es (map_insert m q j) p k found) [
        | inl later ↦ inl (Memᴰ.tail later)
        | inr at ↦ elim (Bool-cases (q == p)) [
          | inl same ↦
              let is : p ≡ q = ground (arith, ==_iff q p) in
              let id : k ≡ j = ground arith in
              inl (Memᴰ.head (ap (λ i. (i, p)) id ∙ ap (λ r. (j, r)) is))
          | inr other ↦ inr (ground arith)
        ]
      ]

  -- A pointer that is listed under one id only is found under it.
  collect_ids-one :
      (es : List (K × Ptr)) (m : PtrMap K) (p : Ptr) (k : K)
      → ((j : K) → Memᴰ (j, p) es → j ≡ k)
      → Memᴰ (k, p) es ⊎ (m p ≡ some k)
      → collect_ids m es p ≡ some k
  unfolding collect_ids
  collect_ids-one [] m p k one (inl there) = absurd (Memᴰ.not-nil there)
  collect_ids-one [] m p k one (inr at) = at
  collect_ids-one ((j, q) ∷ es) m p k one there =
      collect_ids-one es (map_insert m q j) p k (λ i later. one i (Memᴰ.tail later))
        (elim (Bool-cases (q == p)) [
          | inl same ↦
              let is : p ≡ q = ground (arith, ==_iff q p) in
              let id : j ≡ k = one j (Memᴰ.head (ap (λ r. (j, r)) is)) in inr (ground arith)
          | inr other ↦ elim there [
            | inl here ↦ elim (Memᴰ.cases_cons here) [
              | inl first ↦ absurd (ground (arith, ==_iff q p, ap (λ e. e.1) first))
              | inr later ↦ inl later
            ]
            | inr at ↦ inr (ground arith)
          ]
        ])

-- The two maps are inverse to each other.
pub from_slotmap-Bijective :
    (S : SlotMaps) (m : S.SlotMap Ptr)
    → ((i k : S.Key) (p : Ptr) → S.get Ptr m i ≡ some p → S.get Ptr m k ≡ some p → i ≡ k)
    → Bijective (from_slotmap {S = S} m)
unfolding from_slotmap
from_slotmap-Bijective S m distinct = record {
  id_of = λ i p at.
      collect_ids-one (S.iter Ptr m) (λ _. none) p i
        (λ j there. distinct j i p (S.get-iter Ptr m j p there) at) (inl (S.iter-get Ptr m i p at));
  ptr_of = λ i p at. elim (collect_ids-listed (S.iter Ptr m) (λ _. none) p i at) [
    | inl there ↦ S.get-iter Ptr m i p there
    | inr before ↦ absurd cc
  ];
}
