-- ===== src/Detached/Building/Ordered.antt =====
-- When `attach` of src/detached.rs can build the objects in an order.
use mathlib.Core.Option
use mathlib.Core.Path.{fun_ext}
use relrc.Prelude.{
  ◌≡◌, inl, inr, refl, sym, subst, Bool, true, ◌||◌, some, List, [], ◌∷◌, arith, All, Bool-cases,
  Option-cases,
}
use relrc.Object.{Ptr, Heap, clone}
use relrc.Mpi.Message.{Hashes}
use relrc.Node.{with_parents}
use relrc.Mpi.Transfer.{DetachedInnerData}
use relrc.Mpi.Protocol.{find_data, insert_data}
use relrc.Mpi.Protocol.Asking.{
  find_data-contains_key, contains_key-find_data, contains_key-insert_data,
}
use relrc.Detached.{Detached, hash_eq, contains_key}
use relrc.Detached.Building.{find_relrc, find_parents, build, build_all}

module _ (H : Hashes) {N E : Type 0} (d : Detached H N E)
    (attach_to : List (H.RelRcHash × Ptr)) where
  -- A parent that is there: built before, as `known` tells, or given
  abbrev pub There : (H.RelRcHash → Bool) → H.RelRcHash × E → Type 0
  There known e = (known e.0 || contains_key H attach_to e.0) ≡ true

  -- Each object of the order is one that was detached, and its parents come before it or are given.
  abbrev pub IsOrdered : (H.RelRcHash → Bool) → List H.RelRcHash → Type 0
  IsOrdered known [] = Unit {0}
  IsOrdered known (id ∷ ids) =
      ((x : DetachedInnerData H N E) × (find_data H d.all_data id ≡ some x)
        × All (There known) x.incoming)
      × IsOrdered (λ k. hash_eq H id k || known k) ids

  find_relrc-There :
      (new : List (H.RelRcHash × Ptr)) (e : H.RelRcHash × E)
      → There (contains_key H new) e
      → (p : Ptr) × (find_relrc H new attach_to e.0 ≡ some p)
  find_relrc-There new (k, x) there = elim (Option-cases (find_data H new k)) [
    | inr (p, found) ↦ (p, rw (find_relrc, found) refl)
    | inl gone ↦ elim (Bool-cases (contains_key H attach_to k)) [
      | inl given ↦
          let (p, found) = find_data-contains_key H attach_to k given in
          (p, rw (find_relrc, gone) found)
      | inr other ↦ elim (Bool-cases (contains_key H new k)) [
        | inl built ↦ let (p, found) = find_data-contains_key H new k built in absurd (ground arith)
        | inr missing ↦ absurd (ground arith)
      ]
    ]
  ]

  There-find_relrc :
      (new : List (H.RelRcHash × Ptr)) (e : H.RelRcHash × E) (p : Ptr)
      → find_relrc H new attach_to e.0 ≡ some p
      → There (contains_key H new) e
  There-find_relrc new (k, x) p found = elim (Option-cases (find_data H new k)) [
    | inr (q, e) ↦ rw (contains_key-find_data H new k q e) refl
    | inl gone ↦
        let given = contains_key-find_data H attach_to k p (rw (find_relrc, gone) at found) in
        ground arith
  ]

  find_parents-There :
      (new : List (H.RelRcHash × Ptr)) (es : List (H.RelRcHash × E)) (h : Heap N E)
      → All (There (contains_key H new)) es
      → (out : List (Ptr × E) × Heap N E) × (find_parents H new attach_to es h ≡ some out)
  unfolding find_parents Option.bind
  find_parents-There new [] h there = (([], h), refl)
  find_parents-There new ((k, x) ∷ es) h (there, others) =
      let (p, found) = find_relrc-There new (k, x) there in
      let ((rest, h'), returned) = find_parents-There new es (clone p h) others in
      (((p, x) ∷ rest, h'), rw (found, returned) refl)

  There-find_parents :
      (new : List (H.RelRcHash × Ptr)) (es : List (H.RelRcHash × E)) (h : Heap N E)
      (out : List (Ptr × E) × Heap N E)
      → find_parents H new attach_to es h ≡ some out
      → All (There (contains_key H new)) es
  unfolding find_parents Option.bind
  There-find_parents new [] h out returned = tt
  There-find_parents new ((k, x) ∷ es) h out returned =
      elim (Option-cases (find_relrc H new attach_to k)) [
        | inl gone ↦ absurd (ground arith)
        | inr (p, found) ↦ elim (Option-cases (find_parents H new attach_to es (clone p h))) [
          | inl gone ↦ absurd (ground arith)
          | inr (rest, e) ↦
              (There-find_relrc new (k, x) p found, There-find_parents new es (clone p h) rest e)
        ]
      ]

  same_keys :
      (new : List (H.RelRcHash × Ptr)) (id : H.RelRcHash) (p : Ptr)
      → contains_key H (insert_data H new id p) ≡ (λ k. hash_eq H id k || contains_key H new k)
  same_keys new id p = fun_ext (λ k. contains_key-insert_data H new id p k)

  pub build_all-IsOrdered :
      (ids : List H.RelRcHash) (new : List (H.RelRcHash × Ptr)) (h : Heap N E)
      → IsOrdered (contains_key H new) ids
      → (out : List (H.RelRcHash × Ptr) × Heap N E) × (build_all H d attach_to ids new h ≡ some out)
  unfolding build_all build Option.bind
  build_all-IsOrdered [] new h ordered = ((new, h), refl)
  build_all-IsOrdered (id ∷ ids) new h ((x, found, there), ordered) =
      let ((parents, h'), returned) = find_parents-There new x.incoming h there in
      let made = with_parents x.value parents h' in
      let (out, e) =
        build_all-IsOrdered ids (insert_data H new id made.0) made.1
          (subst (λ f. IsOrdered f ids) (sym (same_keys new id made.0)) ordered) in
      (out, rw (found, returned) e)

  pub IsOrdered-build_all :
      (ids : List H.RelRcHash) (new : List (H.RelRcHash × Ptr)) (h : Heap N E)
      (out : List (H.RelRcHash × Ptr) × Heap N E)
      → build_all H d attach_to ids new h ≡ some out
      → IsOrdered (contains_key H new) ids
  unfolding build_all build Option.bind
  IsOrdered-build_all [] new h out returned = tt
  IsOrdered-build_all (id ∷ ids) new h out returned =
      elim (Option-cases (find_data H d.all_data id)) [
        | inl gone ↦ absurd (ground arith)
        | inr (x, found) ↦ elim (Option-cases (find_parents H new attach_to x.incoming h)) [
          | inl gone ↦ absurd (ground arith)
          | inr ((parents, h'), e) ↦
              let made = with_parents x.value parents h' in
              let rest : build_all H d attach_to ids (insert_data H new id made.0) made.1
                  ≡ some out =
                rw (found, e) at returned in
              (
                (x, found, There-find_parents new x.incoming h (parents, h') e),
                subst (λ f. IsOrdered f ids) (same_keys new id made.0)
                    (IsOrdered-build_all ids (insert_data H new id made.0) made.1 out rest),
              )
        ]
      ]
