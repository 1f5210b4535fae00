-- ===== src/Serialization/Graphs/Asserting.antt =====
-- The assertions of `HistoryGraph::from_serialized` (src/serialization.rs) hold.
use mathlib.Core.Option
use mathlib.Core.List.{Memᴰ}
use mathlib.Core.List.Memᴰ
use relrc.Prelude.{
  ℕ, ◌<◌, ◌↔◌, ◌≡◌, ◌⊎◌, refl, sym, ◌∙◌, subst, ap, inl, inr, Bool, true, false, none, some, List,
  [], ◌∷◌, map, arith, Option-cases, Bool-cases, ◌==◌, ==_iff,
}
use relrc.SlotMap.{SlotMaps, SecondaryMaps}
use relrc.Object.{Ptr, Heap, strong_count, upgrade}
use relrc.World.{World, share}
use relrc.Drop.{drop, each}
use relrc.Registry
use relrc.Registry.{
  Registry, PtrMap, map_insert, collect_ids, get_id, contains_id, is_some, from_slotmap,
}
use relrc.History.{HistoryGraph}
use relrc.Insertion
use relrc.Serialization.Format.{SerializedInnerData, SerializedHistoryGraph}
use relrc.Serialization.Restoring.Restored.{IsRanked}
use relrc.Serialization.Saving.Reading.{Read, from_serialized-Read}
use relrc.Serialization.Graphs.{all_of, has_key, rejected, is_known, keep_nodes, from_serialized}

-- The map that is collected finds each pointer that was listed or was there before.
collect_ids-finds :
    {K : Type 0} (es : List (K × Ptr)) (m : PtrMap K) (p : Ptr)
    → ((k : K) × Memᴰ (k, p) es) ⊎ (is_some (m p) ≡ true)
    → is_some (collect_ids m es p) ≡ true
unfolding collect_ids
collect_ids-finds [] m p (inl (k, there)) = absurd (Memᴰ.not-nil there)
collect_ids-finds [] m p (inr found) = found
collect_ids-finds ((j, q) ∷ es) m p (inl (k, there)) = elim (Memᴰ.cases_cons there) [
  | inl here ↦
      let same : p ≡ q = ap (λ e. e.1) here in
      collect_ids-finds es (map_insert m q j) p (inr (ground (arith, ==_iff q p)))
  | inr later ↦ collect_ids-finds es (map_insert m q j) p (inl (k, later))
]
collect_ids-finds ((j, q) ∷ es) m p (inr found) =
    collect_ids-finds es (map_insert m q j) p
      (inr (elim (Bool-cases (q == p)) [ inl same ↦ rw same refl | inr apart ↦ rw apart found ]))

contains-listed :
    {S : SlotMaps} (r : Registry S) (k : S.Key) (p : Ptr)
    → r ≡ from_slotmap r.nodes
    → S.get Ptr r.nodes k ≡ some p
    → Registry.contains r p ≡ true
unfolding from_slotmap Registry.contains get_id
contains-listed {S} r k p collected at =
    ap (λ (q : Registry S). is_some (q.ptr_to_id p)) collected
    ∙ collect_ids-finds (S.iter Ptr r.nodes) (λ _. none) p (inl (k, S.iter-get Ptr r.nodes k p at))

all_of_all :
    {A : Type 0} (f : A → Bool) (xs : List A)
    → ((x : A) → Memᴰ x xs → f x ≡ true)
    → all_of f xs ≡ true
all_of_all f [] holds = refl
all_of_all f (x ∷ xs) holds =
    rw (holds x (Memᴰ.head refl)) (all_of_all f xs (λ y there. holds y (Memᴰ.tail there)))

all_of_each :
    {A : Type 0} (f : A → Bool) (xs : List A) (x : A) → all_of f xs ≡ true → Memᴰ x xs → f x ≡ true
all_of_each f [] x all there = absurd (Memᴰ.not-nil there)
all_of_each f (y ∷ ys) x all there = elim (Bool-cases (f y)) [
  | inl yes_y ↦ elim (Memᴰ.cases_cons there) [
    | inl here ↦ subst (λ z. f z ≡ true) (sym here) yes_y
    | inr later ↦ all_of_each f ys x (sym (rw yes_y refl) ∙ all) later
  ]
  | inr no_y ↦ absurd (ground arith)
]

contains_id_alive :
    {S : SlotMaps} {N E : Type 0} (r : Registry S) (k : S.Key) (p : Ptr) (h : Heap N E)
    → S.get Ptr r.nodes k ≡ some p
    → 0 < strong_count h p
    → contains_id r k h ≡ true
unfolding contains_id Registry.get upgrade
contains_id_alive r k p h at alive =
    let not_dead : (strong_count h p == 0) ≡ false = ground arith in
    rw (contains_id, Registry.get, at, upgrade, not_dead) refl

module _ {S : SlotMaps} (T : SecondaryMaps S) {N E : Type 0} (ser : SerializedHistoryGraph S N E)
    (w : World S N E) (read : Read T ser.registry w.heap) where
  abbrev pub kept : T.SecondaryMap Ptr
  kept = T.retain Ptr read.nodes (λ k _. has_key S ser.nodes k)

  pub kept_before :
      (k : S.Key) (p : Ptr) → T.get Ptr kept k ≡ some p → T.get Ptr read.nodes k ≡ some p
  unfolding Option.bind
  kept_before k p at =
      let is = T.get-retain Ptr read.nodes (λ k _. has_key S ser.nodes k) k in
      elim (Option-cases (T.get Ptr read.nodes k)) [
        | inl gone ↦ absurd (ground arith)
        | inr (q, e) ↦ elim (Bool-cases (has_key S ser.nodes k)) [
          | inl there ↦ ground arith
          | inr out ↦ absurd (ground arith)
        ]
      ]

  -- The graph is made of the nodes that are kept, in a registry that is shared.
  pub keep_nodes-new :
      keep_nodes T ser.nodes read.registry read.nodes (record w { heap = read.heap })
      ≡ some (
          let (rp, w') = share read.registry (
            each drop
              (rejected S ser.nodes (T.iter Ptr read.nodes))
              (record w { heap = read.heap })) in
          Insertion.new (map (λ e. e.1) (T.iter Ptr kept)) rp w')
  unfolding keep_nodes
  keep_nodes-new =
      let contained : all_of (λ e. Registry.contains read.registry e.1) (T.iter Ptr kept) ≡ true =
        all_of_all (λ e. Registry.contains read.registry e.1) (T.iter Ptr kept)
          (λ (k, p) there.
            contains-listed read.registry k p read.collected
              (read.same_ids k ∙ kept_before k p (T.get-iter Ptr kept k p there))) in
      rw contained refl

  -- Every id that the graph is to have was saved.
  abbrev pub AllSaved : Type 0
  AllSaved =
      (k : S.Key)
      → Memᴰ k ser.nodes
      → (v : SerializedInnerData S.Key N E) × (S.get (SerializedInnerData S.Key N E)
            ser.registry.nodes k
          ≡ some v)

  pub from_serialized-keep_nodes :
      AllSaved
      → from_serialized T ser w
        ≡ keep_nodes T ser.nodes read.registry read.nodes (record w { heap = read.heap })
  unfolding from_serialized Option.bind
  from_serialized-keep_nodes saved =
      let known = all_of_all (is_known T read.nodes) ser.nodes (λ k there.
        let (v, listed) = saved k there in let (p, at) = read.all_found k v listed in rw at refl) in
      let alive =
        all_of_all (λ k. contains_id read.registry k read.heap) ser.nodes
          (λ k there.
            let (v, listed) = saved k there in
            let (p, at) = read.all_found k v listed in
            contains_id_alive read.registry k p read.heap (read.same_ids k ∙ at)
              (read.restored k p at).alive) in
      rw (read.returned, known, alive) refl

-- Where the edges of the saved nodes make no cycle and come from saved nodes, `from_serialized`
-- returns a graph exactly if each id that the graph is to have was saved; otherwise it panics.
pub from_serialized_iff :
    {S : SlotMaps} (T : SecondaryMaps S) {N E : Type 0} (ser : SerializedHistoryGraph S N E)
    (w : World S N E) (rank : S.Key → ℕ)
    → IsRanked (S.get (SerializedInnerData S.Key N E) ser.registry.nodes) rank
    → ((out : HistoryGraph T × World S N E) × (from_serialized T ser w ≡ some out)) ↔ (
        (k : S.Key)
        → Memᴰ k ser.nodes
        → (v : SerializedInnerData S.Key N E) × (S.get
              (SerializedInnerData S.Key N E)
              ser.registry.nodes
              k
            ≡ some v))
unfolding from_serialized keep_nodes Option.bind
from_serialized_iff {S} T {N} {E} ser w rank ranked =
    let read = from_serialized-Read T ser.registry w.heap rank ranked in
    (
      λ (out, returned) k there.
          let known : all_of (is_known T read.nodes) ser.nodes ≡ true =
            elim (Bool-cases (all_of (is_known T read.nodes) ser.nodes)) [
              | inl holds ↦ holds
              | inr fails ↦
                  let panics : from_serialized T ser w ≡ none = rw (read.returned, fails) refl in
                  absurd (ground arith)
            ] in
          elim (Option-cases (T.get Ptr read.nodes k)) [
            | inl gone ↦
                absurd (ground (arith, all_of_each (is_known T read.nodes) ser.nodes k known there))
            | inr (p, at) ↦ let o = read.restored k p at in (o.node, o.listed)
          ],
      λ saved. (_, from_serialized-keep_nodes T ser w read saved ∙ keep_nodes-new T ser w read),
    )
