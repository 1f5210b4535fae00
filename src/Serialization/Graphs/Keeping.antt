-- ===== src/Serialization/Graphs/Keeping.antt =====
-- The nodes that `HistoryGraph::from_serialized` of src/serialization.rs keeps are alive once it has
-- dropped the others.
use mathlib.Core.List.{Memᴰ}
use mathlib.Core.List.Memᴰ
use relrc.Prelude.{
  ◌+◌, ◌<◌, ◌≤◌, ◌≡◌, ◌≢◌, ◌↔◌, refl, sym, ap, subst, inl, inr, true, false, some, List, [], ◌∷◌,
  ◌++◌, arith, All, Bool-cases, ◌==◌, ==_iff, count, count-append,
}
use relrc.SlotMap.{SlotMaps, SecondaryMaps, Once}
use relrc.Object.{Ptr, strong_count}
use relrc.World.{World}
use relrc.Drop.{drop, each}
use relrc.Counts.{IsCounted}
use relrc.Counts.Update.{IsCounted-count}
use relrc.Counts.Dropping.{each-drop-IsCounted}
use relrc.Serialization.Format.{SerializedHistoryGraph}
use relrc.Serialization.Saving.Reading.{Read}
use relrc.Serialization.Graphs.{has_key, rejected}

pub has_key_iff : (S : SlotMaps) (ks : List S.Key) (k : S.Key) → (has_key S ks k ≡ true) ↔ Memᴰ k ks
has_key_iff S [] k = (λ e. cc, λ there. absurd (Memᴰ.not-nil there))
has_key_iff S (i ∷ is) k = elim (Bool-cases (S.key_eq i k)) [
  | inl same ↦ (λ e. Memᴰ.head (sym ((S.key_eq_iff i k).0 same)), λ there. rw same refl)
  | inr other ↦ (
    λ e. Memᴰ.tail ((has_key_iff S is k).0 (ground arith)),
    λ there. elim (Memᴰ.cases_cons there) [
      | inl here ↦ absurd (ground (arith, S.key_eq_iff i k))
      | inr later ↦ ground (arith, (has_key_iff S is k).1 later)
    ],
  )
]

-- A list that holds `r`, as `r` and the rest
remove_one :
    (r : Ptr) (ms : List Ptr)
    → 0 < count r ms
    → (xs : List Ptr) × ((q : Ptr) → count q ms ≡ count q (r ∷ xs))
remove_one r [] some_there = absurd (omega arith)
remove_one r (m ∷ ms) some_there = elim (Bool-cases (m == r)) [
  | inl same ↦ (ms, λ q. let is = (==_iff m r).0 same in ap (λ n. count q (n ∷ ms)) is)
  | inr other ↦ let (xs, eq) = remove_one r ms (ground arith) in (m ∷ xs, λ q. ground (arith, eq q))
]

-- A list that holds all of `rs`, as those and the rest
pub remove_all :
    (rs ms : List Ptr)
    → ((q : Ptr) → count q rs ≤ count q ms)
    → (xs : List Ptr) × ((q : Ptr) → count q ms ≡ count q rs + count q xs)
remove_all [] ms within = (ms, λ q. omega arith)
remove_all (r ∷ rs) ms within =
    let (ms', eq) = remove_one r ms (ground (arith, within r)) in
    let (xs, rest) = remove_all rs ms' (λ q. ground (arith, within q, eq q)) in
    (xs, λ q. ground (arith, eq q, rest q))

All-at_mem : {A : Type 0} (P : A → Type 0) (xs : List A) (x : A) → All P xs → Memᴰ x xs → P x
All-at_mem P [] x all there = absurd (Memᴰ.not-nil there)
All-at_mem P (y ∷ ys) x (here, all) there = elim (Memᴰ.cases_cons there) [
  | inl is ↦ subst P (sym is) here
  | inr later ↦ All-at_mem P ys x all later
]

module _ (S : SlotMaps) (keep : List S.Key) where
  pub rejected-listed :
      (es : List (S.Key × Ptr)) (q : Ptr)
      → 0 < count q (rejected S keep es)
      → (i : S.Key) × Memᴰ (i, q) es × (has_key S keep i ≡ false)
  rejected-listed [] q there = absurd (omega arith)
  rejected-listed ((k, p) ∷ es) q there = elim (Bool-cases (has_key S keep k)) [
    | inl kept ↦
        let (i, listed, out) = rejected-listed es q (ground arith) in (i, Memᴰ.tail listed, out)
    | inr out ↦ elim (Bool-cases (p == q)) [
      | inl same ↦ (k, Memᴰ.head (ap (λ r. (k, r)) (sym ((==_iff p q).0 same))), out)
      | inr other ↦
          let (i, listed, gone) = rejected-listed es q (ground arith) in (i, Memᴰ.tail listed, gone)
    ]
  ]

  pub count-rejected :
      (es : List (S.Key × Ptr)) (q : Ptr)
      → Once es
      → ((i k : S.Key) (p : Ptr) → Memᴰ (i, p) es → Memᴰ (k, p) es → i ≡ k)
      → count q (rejected S keep es) ≤ 1
  count-rejected [] q once distinct = omega arith
  count-rejected ((k, p) ∷ es) q (apart, once) distinct =
      let rest =
        count-rejected es q once
          (λ i j r at_i at_j. distinct i j r (Memᴰ.tail at_i) (Memᴰ.tail at_j)) in
      elim (Bool-cases (has_key S keep k)) [
        | inl kept ↦ ground arith
        | inr out ↦ elim (Bool-cases (p == q)) [
          | inr other ↦ ground arith
          | inl same ↦ elim (Bool-cases (count q (rejected S keep es) == 0)) [
            | inl none_left ↦ ground arith
            | inr some_left ↦
                let (i, listed, gone) = rejected-listed es q (ground arith) in
                let here = Memᴰ.head (ap (λ r. (k, r)) (sym ((==_iff p q).0 same))) in
                absurd (
                  All-at_mem (λ e. k ≢ e.0) es (i, q) apart listed
                    (distinct k i q here (Memᴰ.tail listed)))
          ]
        ]
      ]

module _ {S : SlotMaps} (T : SecondaryMaps S) {N E : Type 0} (ser : SerializedHistoryGraph S N E)
    (w : World S N E) (read : Read T ser.registry w.heap) (roots : List Ptr)
    (c : IsCounted roots w.heap) where
  abbrev dropped_handles : List Ptr
  dropped_handles = rejected S ser.nodes (T.iter Ptr read.nodes)

  dropped_at :
      (q : Ptr)
      → 0 < count q dropped_handles
      → (i : S.Key) × (T.get Ptr read.nodes i ≡ some q) × (has_key S ser.nodes i ≡ false)
  dropped_at q there =
      let (i, listed, out) = rejected-listed S ser.nodes (T.iter Ptr read.nodes) q there in
      (i, T.get-iter Ptr read.nodes i q listed, out)

  dropped_once : (q : Ptr) → count q dropped_handles ≤ 1
  dropped_once q =
      count-rejected S ser.nodes (T.iter Ptr read.nodes) q (T.iter-Once Ptr read.nodes)
        (λ i k p at_i at_k.
          read.distinct i k p (T.get-iter Ptr read.nodes i p at_i)
            (T.get-iter Ptr read.nodes k p at_k))

  -- Besides `roots`, a handle to each node that is kept is owned once the others are dropped.
  pub kept_owned :
      (mine : List Ptr) × IsCounted
        (mine ++ roots)
        (each drop dropped_handles (record w { heap = read.heap })).heap
      × ((i : S.Key) (p : Ptr)
          → T.get Ptr read.nodes i ≡ some p
          → has_key S ser.nodes i ≡ true
          → 0 < count p mine)
  kept_owned =
      let (mine, counts, own) = read.owned roots c in
      let (xs, split) = remove_all dropped_handles mine (λ q.
        elim (Bool-cases (count q dropped_handles == 0)) [
          | inl none_there ↦ ground arith
          | inr some_there ↦
              let (k, at_k, out) = dropped_at q (ground arith) in
              omega (arith, own k q at_k, dropped_once q)
        ]) in
      let counts' =
        each-drop-IsCounted dropped_handles (record w { heap = read.heap }) (xs ++ roots)
          (IsCounted-count
            (λ q. omega (
              arith,
              split q,
              count-append q dropped_handles (xs ++ roots),
              count-append q xs roots,
              count-append q mine roots,
            ))
            counts) in
      (
        xs,
        counts',
        λ i p at keep.
            let stays : count p dropped_handles ≡ 0 =
              elim (Bool-cases (count p dropped_handles == 0)) [
                | inl none_there ↦ (==_iff (count p dropped_handles) 0).0 none_there
                | inr some_there ↦
                    let (k, at_k, out) = dropped_at p (ground arith) in
                    let same : i ≡ k = read.distinct i k p at at_k in
                    let keep' : has_key S ser.nodes k ≡ true =
                      subst (λ j. has_key S ser.nodes j ≡ true) same keep in
                    absurd (ground arith)
              ] in
            omega (arith, split p, stays, own i p at),
      )

  pub kept_alive :
      (i : S.Key) (p : Ptr)
      → T.get Ptr read.nodes i ≡ some p
      → has_key S ser.nodes i ≡ true
      → 0 < strong_count (each drop dropped_handles (record w { heap = read.heap })).heap p
  kept_alive i p at keep =
      let (mine, counts, own) = kept_owned in
      omega (arith, counts.counted p, count-append p mine roots, own i p at keep)
