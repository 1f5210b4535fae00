-- ===== src/Detached/Building/Attached.antt =====
-- When `attach` of src/detached.rs returns.
use mathlib.Core.Option
use mathlib.Core.List.{Memᴰ}
use mathlib.Core.List.Memᴰ
use relrc.Prelude.{
  ◌+◌, ◌*◌, ◌≡◌, ◌↔◌, inl, inr, refl, ◌∙◌, subst, true, false, not, ◌||◌, none, some, List, [], ◌∷◌,
  ◌++◌, arith, All, All-map, Bool-cases, Option-cases, length,
}
use relrc.SlotMap.{SlotMaps}
use relrc.Object.{Ptr, Heap}
use relrc.World.{World}
use relrc.Node.{with_parents}
use relrc.Drop.{drop, each}
use relrc.Mpi.Message.{Hashes}
use relrc.Mpi.Transfer.{DetachedInnerData}
use relrc.Mpi.Protocol.{find_data, insert_data}
use relrc.Mpi.Protocol.Asking.{find_data-contains_key, contains_key-insert_data}
use relrc.Detached.{Detached, hash_eq, contains_key, data_parents, all_data_parents}
use relrc.Detached.Visiting.Ending.{post_order_for_each-ends}
use relrc.Detached.Building.{
  collect_handles, parents_in, find_parents, build, build_all, build_order, take_current, others,
  attach,
}
use relrc.Detached.Building.Ordered.{IsOrdered, build_all-IsOrdered, IsOrdered-build_all}

Memᴰ-right : {A : Type 0} (xs ys : List A) (a : A) → Memᴰ a ys → Memᴰ a (xs ++ ys)
Memᴰ-right [] ys a there = there
Memᴰ-right (x ∷ xs) ys a there = Memᴰ.tail (Memᴰ-right xs ys a there)

All-left : {A : Type 0} (xs ys : List A) → All (λ a. Memᴰ a (xs ++ ys)) xs
All-left [] ys = tt
All-left (x ∷ xs) ys = (Memᴰ.head refl, All-map xs (λ a there. Memᴰ.tail there) (All-left xs ys))

module _ (H : Hashes) {N E : Type 0} where
  -- The parents of a detached object are among the parents of all.
  parents_in-known :
      (entries : List (H.RelRcHash × DetachedInnerData H N E)) (k : H.RelRcHash)
      → All (λ u. Memᴰ u (all_data_parents H entries)) (parents_in H (find_data H entries k))
  parents_in-known [] k = tt
  parents_in-known ((j, x) ∷ entries) k = elim (Bool-cases (hash_eq H j k)) [
    | inl same ↦ rw same (All-left (data_parents H x) (all_data_parents H entries))
    | inr apart ↦ rw apart (
        All-map (parents_in H (find_data H entries k))
          (λ u there. Memᴰ-right (data_parents H x) (all_data_parents H entries) u there)
          (parents_in-known entries k))
  ]

  pub build_order-ends :
      (d : Detached H N E) (attach_to : List (H.RelRcHash × Ptr))
      → (ids : List H.RelRcHash) × (build_order H d attach_to ≡ some ids) × Memᴰ d.current ids
  unfolding build_order
  build_order-ends d attach_to =
      post_order_for_each-ends (hash_eq H) (λ id. parents_in H (find_data H d.all_data id))
        (λ id. not (contains_key H attach_to id)) (all_data_parents H d.all_data)
        (3 + 2 * length (all_data_parents H d.all_data)) d.current (λ v. ground arith)
        (parents_in-known d.all_data) (omega arith)

  build-inserts :
      (d : Detached H N E) (attach_to : List (H.RelRcHash × Ptr)) (id : H.RelRcHash)
      (new : List (H.RelRcHash × Ptr)) (h : Heap N E) (new' : List (H.RelRcHash × Ptr))
      (h' : Heap N E)
      → build H d attach_to id new h ≡ some (new', h')
      → (p : Ptr) × (new' ≡ insert_data H new id p)
  unfolding build Option.bind
  build-inserts d attach_to id new h new' h' returned =
      elim (Option-cases (find_data H d.all_data id)) [
        | inl gone ↦ absurd (ground arith)
        | inr (x, found) ↦ elim (Option-cases (find_parents H new attach_to x.incoming h)) [
          | inl gone ↦ absurd (ground arith)
          | inr ((parents, g), e) ↦
              let made = with_parents x.value parents g in
              let built : List (H.RelRcHash × Ptr) × Heap N E =
                (insert_data H new id made.0, made.1) in
              let all : some built ≡ some (new', h') = rw (found, e) at returned in (made.0, cc)
        ]
      ]

  -- What was built is found.
  pub build_all-found :
      (d : Detached H N E) (attach_to : List (H.RelRcHash × Ptr)) (ids : List H.RelRcHash)
      (new : List (H.RelRcHash × Ptr)) (h : Heap N E) (out : List (H.RelRcHash × Ptr) × Heap N E)
      → build_all H d attach_to ids new h ≡ some out
      → ((k : H.RelRcHash) → contains_key H new k ≡ true → contains_key H out.0 k ≡ true)
        × ((k : H.RelRcHash) → Memᴰ k ids → contains_key H out.0 k ≡ true)
  unfolding build_all build Option.bind
  build_all-found d attach_to [] new h out returned = (
    λ k there.
        let same : (new, h) ≡ out = cc in
        subst (λ (o : List (H.RelRcHash × Ptr) × Heap N E). contains_key H o.0 k ≡ true) same there,
    λ k there. absurd (Memᴰ.not-nil there),
  )
  build_all-found d attach_to (id ∷ ids) new h out returned =
      elim (Option-cases (build H d attach_to id new h)) [
        | inl gone ↦ absurd (ground arith)
        | inr ((new', h'), e) ↦
            let (p, inserted) = build-inserts d attach_to id new h new' h' e in
            let (kept, found) = build_all-found d attach_to ids new' h' out (rw e at returned) in
            let keys = contains_key-insert_data H new id p in
            let known : (k : H.RelRcHash)
                → contains_key H new' k ≡ (hash_eq H id k || contains_key H new k) =
              λ k. rw inserted (keys k) in
            (
              λ k there. kept k (known k ∙ rw there (ground arith)),
              λ k there. elim (Memᴰ.cases_cons there) [
                | inl here ↦ kept k (known k ∙ rw here (ground arith))
                | inr later ↦ found k later
              ],
            )
      ]

-- Where the object is not there already, `attach` returns exactly if, in the order in which
-- `post_order_for_each` calls, each object is one that was detached and its parents come before it or
-- are in `attach_to`; otherwise it panics. The loop of `post_order_for_each` ends.
pub attach_iff :
    (H : Hashes) {S : SlotMaps} {N E : Type 0} (hash_id : Ptr → H.RelRcHash) (d : Detached H N E)
    (handles : List Ptr) (w : World S N E)
    → find_data H (collect_handles H hash_id handles []) d.current ≡ none
    → (ids : List H.RelRcHash) × (build_order H d (collect_handles H hash_id handles []) ≡ some ids)
      × (((out : Ptr × World S N E) × (attach H hash_id d handles w ≡ some out))
          ↔ IsOrdered H d (collect_handles H hash_id handles []) (λ k. false) ids)
unfolding attach take_current Option.bind
attach_iff H {S} {N} {E} hash_id d handles w missing =
    let attach_to = collect_handles H hash_id handles [] in
    let (ids, order, own) = build_order-ends H d attach_to in
    (
      ids,
      order,
      (
        λ (out, returned). elim (Option-cases (build_all H d attach_to ids [] w.heap)) [
          | inl gone ↦
              let panics : attach H hash_id d handles w ≡ none =
                rw (attach, missing, order, gone) refl in
              absurd (ground arith)
          | inr (built, e) ↦ IsOrdered-build_all H d attach_to ids [] w.heap built e
        ],
        λ ordered.
            let ((new, h), e) = build_all-IsOrdered H d attach_to ids [] w.heap ordered in
            let (kept, found) = build_all-found H d attach_to ids [] w.heap (new, h) e in
            let (p, at) = find_data-contains_key H new d.current (found d.current own) in
            (
              (p, each drop handles (each drop (others H d.current new) (record w { heap = h }))),
              rw (attach, missing, order, e, at) refl,
            ),
      ),
    )
