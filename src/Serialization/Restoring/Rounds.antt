-- ===== src/Serialization/Restoring/Rounds.antt =====
-- The loop of `deserialize_nodes` of src/serialization.rs returns, and restores every node that was
-- saved.
use relrc.Prelude.{
  ℕ, zero, suc, ◌<◌, ◌≡◌, refl, sym, subst, inl, inr, Option, none, some, List, [], ◌++◌, arith,
  Option-cases, count, List-cases,
}
use mathlib.Core.Option
use mathlib.Core.List.{Memᴰ}
use mathlib.Core.List.Memᴰ
use relrc.SlotMap.{SlotMaps, SecondaryMaps}
use relrc.Object.{Ptr, Heap}
use relrc.Counts.{IsCounted}
use relrc.Serialization.Format.{SerializedInnerData}
use relrc.Serialization.Restoring.{Restoring, remaining, deserialize_rounds, deserialize_nodes}
use relrc.Serialization.Restoring.Heaps.{Grows}
use relrc.Serialization.Restoring.Restored.{
  IsRanked, IsRestored, IsGood, Moves, Moves-refl, Moves-trans, Apart, Apart-Moves, Present,
  Present-Moves, to_do,
}
use relrc.Serialization.Restoring.Nodes.{deserialize_node-Called}

module _ {S : SlotMaps} {T : SecondaryMaps S} {N E : Type 0}
    (saved : S.Key → Option (SerializedInnerData S.Key N E)) (rank : S.Key → ℕ)
    (ranked : IsRanked saved rank)
    (slots : (j k : S.Key) (u v : SerializedInnerData S.Key N E)
      → saved j ≡ some u
      → saved k ≡ some v
      → S.slot j ≡ S.slot k
      → j ≡ k) where
  record Finished (s : Restoring T N E) (out : Option (Restoring T N E)) : Type 0 where
    result : Restoring T N E
    returned : out ≡ some result
    moves : Moves s result
    good : IsGood saved result
    nothing_left : (i : S.Key) → to_do result i ≡ none

  deserialize_rounds-Finished :
      (rounds : ℕ) (s : Restoring T N E)
      → IsGood saved s
      → Apart s
      → ((i : S.Key) (v : SerializedInnerData S.Key N E) → saved i ≡ some v → Present s i)
      → remaining s < rounds
      → Finished s (deserialize_rounds rounds s)
  unfolding deserialize_rounds Option.bind
  deserialize_rounds-Finished zero s good apart present enough = absurd (omega arith)
  deserialize_rounds-Finished (suc rounds) s good apart present enough =
      let Ser = SerializedInnerData S.Key N E in
      elim (List-cases (S.iter Ser s.serialised_nodes)) [
        | inl e ↦
            rw (e, deserialize_rounds)
              (record {
                result = s;
                returned = refl;
                moves = Moves-refl s;
                good = good;
                nothing_left = λ i. elim (Option-cases (to_do s i)) [
                  | inl gone ↦ gone
                  | inr (v, left) ↦ absurd (
                      Memᴰ.not-nil (
                        subst (λ es. Memᴰ (i, v) es) e
                          (S.iter-get Ser s.serialised_nodes i v left)))
                ];
              })
        | inr ((i, v), es, e) ↦
            let left =
              S.get-iter Ser s.serialised_nodes i v
                (subst (λ fs. Memᴰ (i, v) fs) (sym e) (Memᴰ.head refl)) in
            let c =
              deserialize_node-Called saved rank ranked slots (suc (rank i)) (suc (remaining s)) i s
                v (omega arith) good left (apart i v left) (λ k u listed lower. present k u listed)
                (omega arith) in
            let rest =
              deserialize_rounds-Finished rounds c.result c.good (Apart-Moves c.moves apart)
                (λ k u listed. Present-Moves k c.moves (present k u listed))
                (omega (arith, c.strictly)) in
            rw (e, deserialize_rounds, c.returned)
              (record {
                result = rest.result;
                returned = rest.returned;
                moves = Moves-trans c.moves rest.moves;
                good = rest.good;
                nothing_left = rest.nothing_left;
              })
      ]

-- The handles in the map are owned, besides those that were owned before.
pub deserialize_nodes-owned :
    {S : SlotMaps} (T : SecondaryMaps S) {N E : Type 0}
    (m : S.SlotMap (SerializedInnerData S.Key N E)) (h : Heap N E) (rank : S.Key → ℕ)
    → IsRanked (S.get (SerializedInnerData S.Key N E) m) rank
    → (a : T.SecondaryMap Ptr) × (g : Heap N E) × (deserialize_nodes T m h ≡ some (a, g))
      × ((i : S.Key) (v : SerializedInnerData S.Key N E)
          → S.get (SerializedInnerData S.Key N E) m i ≡ some v
          → (p : Ptr) × (T.get Ptr a i ≡ some p))
      × ((i : S.Key) (p : Ptr)
          → T.get Ptr a i ≡ some p
          → IsRestored (S.get (SerializedInnerData S.Key N E) m) (T.get Ptr a) g i p)
      × ((i k : S.Key) (p : Ptr) → T.get Ptr a i ≡ some p → T.get Ptr a k ≡ some p → i ≡ k)
      × Grows h g
      × ((roots : List Ptr)
          → IsCounted roots h
          → (mine : List Ptr) × IsCounted (mine ++ roots) g
            × ((i : S.Key) (p : Ptr) → T.get Ptr a i ≡ some p → 0 < count p mine))
unfolding deserialize_nodes
deserialize_nodes-owned {S} T {N} {E} m h rank ranked =
    let Ser = SerializedInnerData S.Key N E in
    let start : Restoring T N E = record {
      serialised_nodes = m;
      all_nodes = T.new Ptr;
      heap = h;
    } in
    let done =
      deserialize_rounds-Finished (S.get Ser m) rank ranked
        (λ j k u v at_j at_k slot. S.slot-eq Ser m j k u v at_j at_k slot) (suc (remaining start))
        start
        (record {
          restored = λ i p at. absurd (ground (arith, T.get-new Ptr i));
          left = λ i v e. e;
          distinct = λ i k p at_i at_k. absurd (ground (arith, T.get-new Ptr i));
        })
        (λ i v e. T.get-new Ptr i) (λ i v e. inl (v, e)) (omega arith) in
    (
      done.result.all_nodes,
      done.result.heap,
      rw done.returned refl,
      λ i v e. elim (done.moves.moved i v e) [
        | inl left ↦ absurd (ground (arith, done.nothing_left i))
        | inr at ↦ at
      ],
      done.good.restored,
      done.good.distinct,
      done.moves.grown,
      λ roots c.
          let (mine, o) =
            done.moves.owned [] roots (c, λ i p at. absurd (ground (arith, T.get-new Ptr i))) in
          (mine, o.0, o.1),
    )

-- Where the parents of each saved node are saved too and the edges make no cycle, `deserialize_nodes`
-- returns: each id that was saved, and no other, leads to a node that is alive, has the value that
-- was saved and an edge for each that was saved, in order, from the node of the parent's id. Two
-- ids lead to two nodes. Nodes that were alive before stay alive and as they were.
pub deserialize_nodes-restores :
    {S : SlotMaps} (T : SecondaryMaps S) {N E : Type 0}
    (m : S.SlotMap (SerializedInnerData S.Key N E)) (h : Heap N E) (rank : S.Key → ℕ)
    → IsRanked (S.get (SerializedInnerData S.Key N E) m) rank
    → (a : T.SecondaryMap Ptr) × (g : Heap N E) × (deserialize_nodes T m h ≡ some (a, g))
      × ((i : S.Key) (v : SerializedInnerData S.Key N E)
          → S.get (SerializedInnerData S.Key N E) m i ≡ some v
          → (p : Ptr) × (T.get Ptr a i ≡ some p))
      × ((i : S.Key) (p : Ptr)
          → T.get Ptr a i ≡ some p
          → IsRestored (S.get (SerializedInnerData S.Key N E) m) (T.get Ptr a) g i p)
      × ((i k : S.Key) (p : Ptr) → T.get Ptr a i ≡ some p → T.get Ptr a k ≡ some p → i ≡ k)
      × Grows h g
deserialize_nodes-restores T m h rank ranked =
    let (a, g, returned, all_found, restored, distinct, grows, owned) =
      deserialize_nodes-owned T m h rank ranked in
    (a, g, returned, all_found, restored, distinct, grows)
