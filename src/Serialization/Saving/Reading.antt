-- ===== src/Serialization/Saving/Reading.antt =====
-- What `Registry::from_serialized` of src/serialization.rs returns.
use mathlib.Core.Option
use relrc.Prelude.{
  ℕ, ◌≡◌, ◌<◌, refl, ◌∙◌, inl, inr, Option, some, List, ◌++◌, count, arith, Option-cases,
}
use relrc.SlotMap.{SlotMaps, SecondaryMaps}
use relrc.Object.{Ptr, Heap}
use relrc.Counts.{IsCounted}
use relrc.Registry.{Registry, from_slotmap}
use relrc.Serialization.Format.{SerializedInnerData, SerializedRegistry}
use relrc.Serialization.Restoring.Heaps.{Grows}
use relrc.Serialization.Restoring.Restored.{IsRanked, IsRestored}
use relrc.Serialization.Restoring.Rounds.{deserialize_nodes-owned}
use relrc.Serialization.Saving.{from_serialized}

module _ {S : SlotMaps} (T : SecondaryMaps S) {N E : Type 0} (ser : SerializedRegistry S N E)
    (h : Heap N E) where
  abbrev saved : S.Key → Option (SerializedInnerData S.Key N E)
  saved i = S.get (SerializedInnerData S.Key N E) ser.nodes i

  pub record Read : Type 0 where
    pub registry : Registry S
    pub nodes : T.SecondaryMap Ptr
    pub heap : Heap N E
    pub returned : from_serialized T ser h ≡ some (registry, nodes, heap)
    pub all_found :
        (i : S.Key) (v : SerializedInnerData S.Key N E)
        → saved i ≡ some v
        → (p : Ptr) × (T.get Ptr nodes i ≡ some p)
    pub restored :
        (i : S.Key) (p : Ptr)
        → T.get Ptr nodes i ≡ some p
        → IsRestored saved (T.get Ptr nodes) heap i p
    pub distinct :
        (i k : S.Key) (p : Ptr) → T.get Ptr nodes i ≡ some p → T.get Ptr nodes k ≡ some p → i ≡ k
    pub same_ids : (i : S.Key) → S.get Ptr registry.nodes i ≡ T.get Ptr nodes i
    pub collected : registry ≡ from_slotmap registry.nodes
    pub grown : Grows h heap
    pub owned :
        (roots : List Ptr)
        → IsCounted roots h
        → (mine : List Ptr) × IsCounted (mine ++ roots) heap
          × ((i : S.Key) (p : Ptr) → T.get Ptr nodes i ≡ some p → 0 < count p mine)

  pub from_serialized-Read : (rank : S.Key → ℕ) → IsRanked saved rank → Read
  unfolding from_serialized from_slotmap Option.bind
  from_serialized-Read rank ranked =
      let Ser = SerializedInnerData S.Key N E in
      let (ids, ids_eq) =
        S.map-some Ser (Unit {0}) ser.nodes (λ _ _. some tt) (λ i v e. (tt, refl)) in
      let get_ids = S.get-map Ser (Unit {0}) ser.nodes (λ _ _. some tt) ids ids_eq in
      let (a, g, made_eq, all_found, restored, distinct, grows, owned) =
        deserialize_nodes-owned T ser.nodes h rank ranked in
      let (nodes, nodes_eq) =
        S.map-some (Unit {0}) Ptr ids (λ k _. T.get Ptr a k)
          (λ i v e. elim (Option-cases (S.get Ser ser.nodes i)) [
            | inl gone ↦ absurd (ground (arith, get_ids i))
            | inr (u, there) ↦ all_found i u there
          ]) in
      let get_nodes = S.get-map (Unit {0}) Ptr ids (λ k _. T.get Ptr a k) nodes nodes_eq in
      record {
        registry = from_slotmap nodes;
        nodes = a;
        heap = g;
        returned = rw (ids_eq, made_eq, nodes_eq) refl;
        all_found = all_found;
        restored = restored;
        distinct = distinct;
        same_ids = λ i. elim (Option-cases (S.get Ser ser.nodes i)) [
          | inl gone ↦ elim (Option-cases (T.get Ptr a i)) [
            | inl e ↦ ground (arith, get_ids i, get_nodes i)
            | inr (q, e) ↦ let o = restored i q e in absurd (ground (arith, o.listed))
          ]
          | inr (u, there) ↦ get_nodes i ∙ rw (get_ids i, there) refl
        ];
        collected = refl;
        grown = grows;
        owned = owned;
      }
