-- ===== src/Serialization/Restoring/Nodes.antt =====
-- `deserialize_node` of src/serialization.rs returns and restores its node.
use relrc.Prelude.{
  ℕ, zero, suc, ◌<◌, ◌≡◌, refl, ◌∙◌, ap, subst, inl, inr, Option, none, some, List, ◌∷◌, ◌++◌,
  count, arith, if◌then◌else◌, Option-cases, Bool-cases,
}
use mathlib.Core.Option
use relrc.SlotMap.{SlotMaps, SecondaryMaps}
use relrc.Object.{Ptr}
use relrc.Counts.{IsCounted}
use relrc.Serialization.Format.{SerializedInnerData}
use relrc.Serialization.Restoring.{Restoring, remaining, deserialize_node}
use relrc.Serialization.Restoring.Heaps.{Grows, Grows-trans}
use relrc.Serialization.Restoring.Restored.{IsRanked, IsGood, Moves, found, to_do}
use relrc.Serialization.Restoring.Parents.{rebuild_lem}
use relrc.Serialization.Restoring.Calls.{CallsBelow, PresentBelow, each_parent-Looped}

module _ {S : SlotMaps} {T : SecondaryMaps S} {N E : Type 0} where
  -- The node goes out of what is left to do.
  abbrev taken : Restoring T N E → S.Key → Restoring T N E
  taken s i = record s {
    serialised_nodes = (S.remove (SerializedInnerData S.Key N E) s.serialised_nodes i).1;
  }

  to_do-taken :
      (s : Restoring T N E) (i k : S.Key)
      → to_do (taken s i) k ≡ (if S.key_eq i k then none else to_do s k)
  to_do-taken s i k = S.get-remove (SerializedInnerData S.Key N E) s.serialised_nodes i k

  taken_self : (s : Restoring T N E) (i : S.Key) → to_do (taken s i) i ≡ none
  taken_self s i = ground (arith, to_do-taken s i i, S.key_eq_iff i i)

  -- From the node taken out to the node restored.
  module _ (s u t : Restoring T N E) (i : S.Key) (v : SerializedInnerData S.Key N E) (p : Ptr)
      (left : to_do s i ≡ some v) (new : found s i ≡ none) (a : Moves (taken s i) u)
      (find : (k : S.Key) → found t k ≡ (if S.key_eq i k then some p else found u k))
      (rest : t.serialised_nodes ≡ u.serialised_nodes) (grows : Grows u.heap t.heap)
      (counts : (roots : List Ptr) → IsCounted roots u.heap → IsCounted (p ∷ roots) t.heap) where
    not_done : to_do u i ≡ none
    not_done = elim (Option-cases (to_do u i)) [
      | inl e ↦ e
      | inr (w, e) ↦ absurd (ground (arith, a.fewer i w e, taken_self s i))
    ]

    same_left : (k : S.Key) → to_do t k ≡ to_do u k
    same_left k = ap (λ m. S.get (SerializedInnerData S.Key N E) m k) rest

    strictly : remaining t < remaining s
    strictly = omega (
      arith,
      a.shorter,
      S.len-remove (SerializedInnerData S.Key N E) s.serialised_nodes i v left,
      ap (S.len (SerializedInnerData S.Key N E)) rest,
    )

    restored-Moves : Moves s t
    restored-Moves = record {
      kept = λ k q at. elim (Bool-cases (S.key_eq i k)) [
        | inl same ↦
            absurd
              (ground (arith, at, subst (λ j. found s j ≡ none) ((S.key_eq_iff i k).0 same) new))
        | inr other ↦ ground (arith, find k, a.kept k q at)
      ];
      fewer = λ k w e. ground (arith, same_left k, a.fewer k w, to_do-taken s i k);
      moved = λ k w e. elim (Bool-cases (S.key_eq i k)) [
        | inl same ↦ inr (p, ground (arith, find k))
        | inr other ↦ elim (a.moved k w (ground (arith, to_do-taken s i k))) [
          | inl still ↦ inl (same_left k ∙ still)
          | inr (q, at) ↦ inr (q, ground (arith, find k))
        ]
      ];
      only = λ k q at. elim (Bool-cases (S.key_eq i k)) [
        | inl same ↦
            let i_is_k = (S.key_eq_iff i k).0 same in
            inr (
              v,
              subst (λ j. to_do s j ≡ some v) i_is_k left,
              subst (λ j. to_do t j ≡ none) i_is_k (same_left i ∙ not_done),
            )
        | inr other ↦ elim (a.only k q (ground (arith, find k))) [
          | inl before ↦ inl before
          | inr (w, e, gone) ↦ inr (w, ground (arith, to_do-taken s i k), same_left k ∙ gone)
        ]
      ];
      shorter = omega (arith, strictly);
      grown = Grows-trans a.grown grows;
      owned = λ mine roots o.
          let (more, o') = a.owned mine roots o in
          (
            p ∷ more,
            (
              counts (more ++ roots) o'.0,
              λ k q at. elim (Bool-cases (S.key_eq i k)) [
                | inl same ↦
                    let is : p ≡ q = ground (arith, find k, at) in
                    subst (λ r. 0 < count r (p ∷ more)) is (ground arith)
                | inr other ↦
                    let before : 0 < count q more = o'.1 k q (ground (arith, find k, at)) in
                    ground arith
              ],
            ),
          );
    }

module _ {S : SlotMaps} {T : SecondaryMaps S} {N E : Type 0}
    (saved : S.Key → Option (SerializedInnerData S.Key N E)) (rank : S.Key → ℕ)
    (ranked : IsRanked saved rank)
    (slots : (j k : S.Key) (u v : SerializedInnerData S.Key N E)
      → saved j ≡ some u
      → saved k ≡ some v
      → S.slot j ≡ S.slot k
      → j ≡ k) where
  taken-IsGood : (s : Restoring T N E) (i : S.Key) → IsGood saved s → IsGood saved (taken s i)
  taken-IsGood s i good = record {
    restored = good.restored;
    left = λ k w e. good.left k w (ground (arith, to_do-taken s i k));
    distinct = good.distinct;
  }

  taken-PresentBelow :
      (s : Restoring T N E) (i : S.Key)
      → PresentBelow saved rank s (rank i)
      → PresentBelow saved rank (taken s i) (rank i)
  taken-PresentBelow s i present k u listed lower = elim (Bool-cases (S.key_eq i k)) [
    | inl same ↦ absurd (omega (arith, ap rank ((S.key_eq_iff i k).0 same)))
    | inr other ↦ elim (present k u listed lower) [
      | inl (v, left) ↦ inl (v, ground (arith, to_do-taken s i k))
      | inr at ↦ inr at
    ]
  ]

  -- A call restores its node, if what is of lower rank is left to do or restored.
  pub deserialize_node-Called :
      (n depth : ℕ) → CallsBelow {T = T} saved rank n depth (deserialize_node depth)
  unfolding deserialize_node Option.bind
  deserialize_node-Called n zero i s v lower good left new present enough = absurd (omega arith)
  deserialize_node-Called n (suc depth) i s v lower good left new present enough =
      let listed = good.left i v left in
      let fewer = S.len-remove (SerializedInnerData S.Key N E) s.serialised_nodes i v left in
      let loop =
        each_parent-Looped saved rank (rank i) depth (deserialize_node depth)
          (deserialize_node-Called (rank i) depth) v.incoming (taken s i) (ranked i v listed)
          (taken-IsGood s i good) (taken-PresentBelow s i present) (omega (arith, fewer)) in
      let unmade : found loop.result i ≡ none = elim (Option-cases (found loop.result i)) [
        | inl e ↦ e
        | inr (q, at) ↦ elim (loop.moves.only i q at) [
          | inl before ↦ absurd (ground arith)
          | inr (w, e, gone) ↦ absurd (ground (arith, taken_self s i))
        ]
      ] in
      let alone =
        λ (k : S.Key) (q : Ptr) (at : found loop.result k ≡ some q) (slot : S.slot k ≡ S.slot i).
          slots k i (loop.good.restored k q at).node v (loop.good.restored k q at).listed listed
            slot in
      let (t, p, eq, find, rest, grows, good', counts) =
        rebuild_lem saved loop.result i v loop.good listed unmade alone loop.made in
      let removed = S.remove-get (SerializedInnerData S.Key N E) s.serialised_nodes i ∙ left in
      rw (removed, loop.returned, eq)
        (record {
          result = t;
          returned = refl;
          moves = restored-Moves s loop.result t i v p left new loop.moves find rest grows counts;
          good = good';
          made = (p, ground (arith, find i, S.key_eq_iff i i));
          strictly = strictly s loop.result t i v p left new loop.moves find rest grows counts;
        })
