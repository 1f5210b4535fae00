-- ===== src/Detached/Building/Handles.antt =====
-- The maps from hashes to handles that `attach` of src/detached.rs keeps, as handles that are owned.
use relrc.Prelude.{
  ◌+◌, ◌<◌, ◌≡◌, ◌⊎◌, inl, inr, refl, sym, ◌∙◌, subst, none, some, List, [], ◌∷◌, map, arith, ◌==◌,
  count, Bool-cases,
}
use relrc.Object.{Ptr}
use relrc.Mpi.Message.{Hashes}
use relrc.Mpi.Protocol.{find_data, insert_data}
use relrc.Mpi.Protocol.Asking.{find_data-insert_data}
use relrc.Detached.{hash_eq}
use relrc.Detached.Attaching.{hash_eq_sound}
use relrc.Detached.Building.{collect_handles, find_relrc, others}

module _ (H : Hashes) where
  -- The handles in a map
  abbrev pub values : List (H.RelRcHash × Ptr) → List Ptr
  values entries = map (λ e. e.1) entries

  pub find_data-owned :
      (entries : List (H.RelRcHash × Ptr)) (k : H.RelRcHash) (p : Ptr)
      → find_data H entries k ≡ some p
      → 0 < count p (values entries)
  find_data-owned [] k p found = cc
  find_data-owned ((a, q) ∷ entries) k p found = elim (Bool-cases (hash_eq H a k)) [
    | inl same ↦ let is : some q ≡ some p = rw same at found in ground arith
    | inr apart ↦ let later = find_data-owned entries k p (rw apart at found) in omega arith
  ]

  -- `insert` at a key that is not there takes a handle more.
  pub values-insert_data :
      (entries : List (H.RelRcHash × Ptr)) (k : H.RelRcHash) (p q : Ptr)
      → find_data H entries k ≡ none
      → count q (values (insert_data H entries k p)) ≡ count q (p ∷ values entries)
  values-insert_data [] k p q missing = refl
  values-insert_data ((a, r) ∷ entries) k p q missing = elim (Bool-cases (hash_eq H a k)) [
    | inl same ↦ absurd (ground arith)
    | inr apart ↦
        let later = values-insert_data entries k p q (rw apart at missing) in rw apart (omega arith)
  ]

  -- `remove` hands out one handle.
  pub values-others :
      (entries : List (H.RelRcHash × Ptr)) (k : H.RelRcHash) (p q : Ptr)
      → find_data H entries k ≡ some p
      → count q (values entries) ≡ count q (p ∷ others H k entries)
  values-others [] k p q found = cc
  values-others ((a, r) ∷ entries) k p q found = elim (Bool-cases (hash_eq H a k)) [
    | inl same ↦ let is : some r ≡ some p = rw same at found in rw same (ground arith)
    | inr apart ↦
        let later = values-others entries k p q (rw apart at found) in rw apart (omega arith)
  ]

  -- A handle that is looked up in the map of those given is one of them.
  collect_handles-given :
      (hash_id : Ptr → H.RelRcHash) (ps : List Ptr) (entries : List (H.RelRcHash × Ptr))
      (k : H.RelRcHash) (p : Ptr)
      → find_data H (collect_handles H hash_id ps entries) k ≡ some p
      → (0 < count p ps) ⊎ (find_data H entries k ≡ some p)
  collect_handles-given hash_id [] entries k p found = inr found
  collect_handles-given hash_id (q ∷ ps) entries k p found =
      elim (collect_handles-given hash_id ps (insert_data H entries (hash_id q) q) k p found) [
        | inl later ↦ inl (omega arith)
        | inr at ↦ elim (Bool-cases (hash_eq H (hash_id q) k)) [
          | inl same ↦ inl (ground (arith, find_data-insert_data H entries (hash_id q) q k))
          | inr apart ↦ inr (ground (arith, find_data-insert_data H entries (hash_id q) q k))
        ]
      ]

  pub collect_handles-owned :
      (hash_id : Ptr → H.RelRcHash) (ps : List Ptr) (k : H.RelRcHash) (p : Ptr)
      → find_data H (collect_handles H hash_id ps []) k ≡ some p
      → 0 < count p ps
  collect_handles-owned hash_id ps k p found =
      elim (collect_handles-given hash_id ps [] k p found) [
        | inl given ↦ given
        | inr nothing ↦ absurd cc
      ]

  insert_data-values :
      (entries : List (H.RelRcHash × Ptr)) (k : H.RelRcHash) (p q : Ptr)
      → 0 < count q (values (insert_data H entries k p))
      → 0 < count q (p ∷ values entries)
  insert_data-values [] k p q there = there
  insert_data-values ((a, r) ∷ entries) k p q there = elim (Bool-cases (hash_eq H a k)) [
    | inl same ↦ let at : 0 < count q (p ∷ values entries) = rw same at there in omega arith
    | inr apart ↦ elim (Bool-cases (q == r)) [
      | inl here ↦ rw here (omega arith)
      | inr other ↦
          let at : 0 < count q (r ∷ values (insert_data H entries k p)) = rw apart at there in
          let less : 0 < count q (values (insert_data H entries k p)) = ground arith in
          let later = insert_data-values entries k p q less in ground arith
    ]
  ]

  -- The handles in the map are of those given.
  pub values-collect_handles :
      (hash_id : Ptr → H.RelRcHash) (ps : List Ptr) (entries : List (H.RelRcHash × Ptr)) (q : Ptr)
      → 0 < count q (values (collect_handles H hash_id ps entries))
      → 0 < count q ps + count q (values entries)
  values-collect_handles hash_id [] entries q there = omega arith
  values-collect_handles hash_id (p ∷ ps) entries q there =
      let rest = values-collect_handles hash_id ps (insert_data H entries (hash_id p) p) q there in
      elim (Bool-cases (0 == count q ps)) [
        | inl nothing ↦
            let last = insert_data-values entries (hash_id p) p q (ground arith) in omega arith
        | inr more ↦ ground arith
      ]

  -- A hash that is found stays found as `id`, which was not there, is built.
  pub find_relrc-insert_data :
      (new attach_to : List (H.RelRcHash × Ptr)) (id : H.RelRcHash) (node : Ptr) (k : H.RelRcHash)
      (p : Ptr)
      → find_data H new id ≡ none
      → find_data H attach_to id ≡ none
      → find_relrc H new attach_to k ≡ some p
      → find_relrc H (insert_data H new id node) attach_to k ≡ some p
  find_relrc-insert_data new attach_to id node k p missing apart found =
      elim (Bool-cases (hash_eq H id k)) [
        | inl same ↦
            let is = hash_eq_sound H id k same in
            let nothing : find_relrc H new attach_to id ≡ some p =
              subst (λ j. find_relrc H new attach_to j ≡ some p) (sym is) found in
            absurd (cc (rw (find_relrc, missing, apart) at nothing))
        | inr other ↦
            let now : find_data H (insert_data H new id node) k ≡ find_data H new k =
              find_data-insert_data H new id node k ∙ rw other refl in
            rw (find_relrc, now) found
      ]
