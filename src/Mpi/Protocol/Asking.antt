-- ===== src/Mpi/Protocol/Asking.antt =====
-- The objects that the receiver of src/detached/mpi.rs asks for.
use relrc.Prelude.{
  ◌≡◌, inl, inr, refl, sym, subst, Bool, true, false, not, ◌||◌, some, List, [], ◌∷◌, arith,
  if◌then◌else◌, Bool-cases,
}
use mathlib.Core.List.{Memᴰ}
use mathlib.Core.List.Memᴰ
use relrc.Object.{Ptr}
use relrc.Mpi.Message.{Hashes}
use relrc.Detached.{
  Detached, hash_eq, has, contains_key, unique_from, all, keep, all_data_parents, required_hashes,
  attaches_to,
}
use relrc.Mpi.Protocol.{find_data, insert_data, find_first, first_unknown_hash}

module _ (H : Hashes) where
  Memᴰ-unique_from :
      (seen ks : List H.RelRcHash) (k : H.RelRcHash) → Memᴰ k (unique_from H seen ks) → Memᴰ k ks
  Memᴰ-unique_from seen [] k there = absurd (Memᴰ.not-nil there)
  Memᴰ-unique_from seen (j ∷ ks) k there = elim (Bool-cases (has H seen j)) [
    | inl old ↦ Memᴰ.tail (Memᴰ-unique_from seen ks k (rw old at there))
    | inr new ↦ elim (Memᴰ.cases_cons (rw new at there)) [
      | inl here ↦ Memᴰ.head here
      | inr later ↦ Memᴰ.tail (Memᴰ-unique_from (j ∷ seen) ks k later)
    ]
  ]

  Memᴰ-keep :
      (test : H.RelRcHash → Bool) (ks : List H.RelRcHash) (k : H.RelRcHash)
      → Memᴰ k (keep H test ks)
      → Memᴰ k ks × (test k ≡ true)
  Memᴰ-keep test [] k there = absurd (Memᴰ.not-nil there)
  Memᴰ-keep test (j ∷ ks) k there = elim (Bool-cases (test j)) [
    | inl kept ↦ elim (Memᴰ.cases_cons (rw kept at there)) [
      | inl here ↦ (Memᴰ.head here, subst (λ i. test i ≡ true) (sym here) kept)
      | inr later ↦ let (there', holds) = Memᴰ-keep test ks k later in (Memᴰ.tail there', holds)
    ]
    | inr out ↦
        let (there', holds) = Memᴰ-keep test ks k (rw out at there) in (Memᴰ.tail there', holds)
  ]

  find_first-fails :
      (test : H.RelRcHash → Bool) (ks : List H.RelRcHash)
      → all H test ks ≡ false
      → (k : H.RelRcHash) × (find_first H (λ j. not (test j)) ks ≡ some k) × Memᴰ k ks
  find_first-fails test [] fails = cc
  find_first-fails test (j ∷ ks) fails = elim (Bool-cases (test j)) [
    | inl holds ↦
        let (k, found, there) = find_first-fails test ks (rw holds at fails) in
        (k, rw holds found, Memᴰ.tail there)
    | inr out ↦ (j, rw out refl, Memᴰ.head refl)
  ]

  -- Where the receiver cannot attach yet it finds a hash to ask for: that of a parent of an object
  -- that it has, which it has not.
  pub first_unknown_hash-asks :
      {N E : Type 0} (d : Detached H N E) (attach_to : List (H.RelRcHash × Ptr))
      → attaches_to H d attach_to ≡ false
      → (k : H.RelRcHash) × (first_unknown_hash d attach_to ≡ some k)
        × Memᴰ k (all_data_parents H d.all_data)
        × (contains_key H d.all_data k ≡ false)
  unfolding attaches_to first_unknown_hash required_hashes
  first_unknown_hash-asks d attach_to fails =
      let (k, found, there) =
        find_first-fails (contains_key H attach_to) (required_hashes H d) fails in
      let (parent, new) =
        Memᴰ-keep (λ hash. not (contains_key H d.all_data hash)) (all_data_parents H d.all_data) k
          (Memᴰ-unique_from [] _ k there) in
      (k, found, parent, ground arith)

  -- What a map finds after an insertion
  pub find_data-insert_data :
      {A : Type 0} (entries : List (H.RelRcHash × A)) (k : H.RelRcHash) (x : A) (j : H.RelRcHash)
      → find_data H (insert_data H entries k x) j
        ≡ (if hash_eq H k j then some x else find_data H entries j)
  find_data-insert_data [] k x j = refl
  find_data-insert_data ((a, y) ∷ entries) k x j = elim (Bool-cases (hash_eq H a k)) [
    | inl same ↦ ground arith
    | inr apart ↦ ground (arith, find_data-insert_data entries k x j)
  ]

  -- A map has a key exactly if it finds something there.
  pub contains_key-find_data :
      {A : Type 0} (entries : List (H.RelRcHash × A)) (k : H.RelRcHash) (x : A)
      → find_data H entries k ≡ some x
      → contains_key H entries k ≡ true
  contains_key-find_data [] k x found = cc
  contains_key-find_data ((a, y) ∷ entries) k x found = elim (Bool-cases (hash_eq H a k)) [
    | inl same ↦ rw same refl
    | inr apart ↦ rw apart (contains_key-find_data entries k x (rw apart at found))
  ]

  pub find_data-contains_key :
      {A : Type 0} (entries : List (H.RelRcHash × A)) (k : H.RelRcHash)
      → contains_key H entries k ≡ true
      → (x : A) × (find_data H entries k ≡ some x)
  find_data-contains_key [] k there = cc
  find_data-contains_key ((a, y) ∷ entries) k there = elim (Bool-cases (hash_eq H a k)) [
    | inl same ↦ (y, rw same refl)
    | inr apart ↦
        let (x, found) = find_data-contains_key entries k (rw apart at there) in (x, rw apart found)
  ]

  pub contains_key-insert_data :
      {A : Type 0} (entries : List (H.RelRcHash × A)) (k : H.RelRcHash) (x : A) (j : H.RelRcHash)
      → contains_key H (insert_data H entries k x) j ≡ (hash_eq H k j || contains_key H entries j)
  contains_key-insert_data [] k x j = ground arith
  contains_key-insert_data ((a, y) ∷ entries) k x j = elim (Bool-cases (hash_eq H a k)) [
    | inl same ↦ ground arith
    | inr apart ↦ ground (arith, contains_key-insert_data entries k x j)
  ]
