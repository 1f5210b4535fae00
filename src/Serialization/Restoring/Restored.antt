-- ===== src/Serialization/Restoring/Restored.antt =====
-- What `deserialize_node` of src/serialization.rs has restored at any time, and how it changes.
use relrc.Prelude.{
  ℕ, ◌<◌, ◌≤◌, ◌≡◌, ◌⊎◌, inl, inr, Option, none, some, List, [], ◌∷◌, ◌++◌, arith, All,
  Option-cases, count,
}
use relrc.SlotMap.{SlotMaps, SecondaryMaps}
use relrc.Object.{Ptr, InnerEdgeData, Heap, strong_count}
use relrc.Tracking.{registry_of}
use relrc.Counts.{IsCounted}
use relrc.Program.Later.{made}
use relrc.Serialization.Restoring.Heaps.{Grows, Grows-refl, Grows-trans}
use relrc.Serialization.Format.{SerializedInnerData}
use relrc.Serialization.Restoring.{Restoring, remaining}

-- The edges of a node against the serialised ones: the parent of each is the node that has its id.
abbrev pub SameEdges :
    {K E : Type 0} → (K → Option Ptr) → Ptr → List (K × E) → List (InnerEdgeData E) → Type 0
SameEdges find p [] [] = Unit {0}
SameEdges find p ((k, x) ∷ ks) (e ∷ es) =
    (find k ≡ some e.source) × (e.value ≡ x) × (e.target ≡ p) × SameEdges find p ks es
SameEdges find p _ _ = ⊥

module _ {K N E : Type 0} (saved : K → Option (SerializedInnerData K N E)) where
  -- An edge comes from a node that is saved too, and of lower rank.
  abbrev pub Below : (K → ℕ) → ℕ → K × E → Type 0
  Below rank n e = (u : SerializedInnerData K N E) × (saved e.0 ≡ some u) × (rank e.0 < n)

  abbrev pub IsRanked : (K → ℕ) → Type 0
  IsRanked rank =
      (i : K) (v : SerializedInnerData K N E)
      → saved i ≡ some v
      → All (Below rank (rank i)) v.incoming

  -- Node `p` is what was saved of `i`.
  pub record IsRestored (find : K → Option Ptr) (h : Heap N E) (i : K) (p : Ptr) : Type 0 where
    pub node : SerializedInnerData K N E
    pub listed : saved i ≡ some node
    pub alive : 0 < strong_count h p
    pub unregistered : registry_of h p ≡ none
    pub edges : List (InnerEdgeData E)
    pub made_as : made h p ≡ some (node.value, edges)
    pub joined : SameEdges find p node.incoming edges

module _ {S : SlotMaps} {T : SecondaryMaps S} {N E : Type 0} where
  abbrev pub to_do : Restoring T N E → S.Key → Option (SerializedInnerData S.Key N E)
  to_do s i = S.get (SerializedInnerData S.Key N E) s.serialised_nodes i

  abbrev pub found : Restoring T N E → S.Key → Option Ptr
  found s i = T.get Ptr s.all_nodes i

  pub record IsGood (saved : S.Key → Option (SerializedInnerData S.Key N E)) (s : Restoring T N E)
      : Type 0 where
    pub restored :
        (i : S.Key) (p : Ptr) → found s i ≡ some p → IsRestored saved (found s) s.heap i p
    pub left :
        (i : S.Key) (v : SerializedInnerData S.Key N E) → to_do s i ≡ some v → saved i ≡ some v
    pub distinct : (i k : S.Key) (p : Ptr) → found s i ≡ some p → found s k ≡ some p → i ≡ k

  -- Besides the handles `roots`, the handles `mine` are owned, and those in `all_nodes` are among them.
  abbrev pub Owns : List Ptr → List Ptr → Restoring T N E → Type 0
  Owns mine roots s =
      IsCounted (mine ++ roots) s.heap
      × ((i : S.Key) (p : Ptr) → found s i ≡ some p → 0 < count p mine)

  -- `t` may come after `s`: a node that is not restored yet was restored or left.
  pub record Moves (s t : Restoring T N E) : Type 0 where
    pub kept : (i : S.Key) (p : Ptr) → found s i ≡ some p → found t i ≡ some p
    pub fewer :
        (i : S.Key) (v : SerializedInnerData S.Key N E) → to_do t i ≡ some v → to_do s i ≡ some v
    pub moved :
        (i : S.Key) (v : SerializedInnerData S.Key N E)
        → to_do s i ≡ some v
        → (to_do t i ≡ some v) ⊎ ((p : Ptr) × (found t i ≡ some p))
    pub only :
        (i : S.Key) (p : Ptr)
        → found t i ≡ some p
        → (found s i ≡ some p)
          ⊎ ((v : SerializedInnerData S.Key N E) × (to_do s i ≡ some v) × (to_do t i ≡ none))
    pub shorter : remaining t ≤ remaining s
    pub grown : Grows s.heap t.heap
    pub owned : (mine roots : List Ptr) → Owns mine roots s → (more : List Ptr) × Owns more roots t

  -- What is left to do is not restored yet.
  abbrev pub Apart : Restoring T N E → Type 0
  Apart s = (i : S.Key) (v : SerializedInnerData S.Key N E) → to_do s i ≡ some v → found s i ≡ none

  abbrev pub Present : Restoring T N E → S.Key → Type 0
  Present s i =
      ((v : SerializedInnerData S.Key N E) × (to_do s i ≡ some v))
      ⊎ ((p : Ptr) × (found s i ≡ some p))

  pub Moves-refl : (s : Restoring T N E) → Moves s s
  Moves-refl s = record {
    kept = λ i p e. e;
    fewer = λ i v e. e;
    moved = λ i v e. inl e;
    only = λ i p e. inl e;
    shorter = omega arith;
    grown = Grows-refl s.heap;
    owned = λ mine roots o. (mine, o);
  }

  pub Moves-trans : {s t u : Restoring T N E} → Moves s t → Moves t u → Moves s u
  Moves-trans {u} a b = record {
    kept = λ i p e. b.kept i p (a.kept i p e);
    fewer = λ i v e. a.fewer i v (b.fewer i v e);
    moved = λ i v e. elim (a.moved i v e) [
      | inl left ↦ b.moved i v left
      | inr (p, at) ↦ inr (p, b.kept i p at)
    ];
    only = λ i p e. elim (b.only i p e) [
      | inl at ↦ elim (a.only i p at) [
        | inl before ↦ inl before
        | inr (v, left, gone) ↦ inr (
          v,
          left,
          elim (Option-cases (to_do u i)) [
            | inl e' ↦ e'
            | inr (w, e') ↦ absurd (ground (arith, b.fewer i w e'))
          ],
        )
      ]
      | inr (v, left, gone) ↦ inr (v, a.fewer i v left, gone)
    ];
    shorter = omega (arith, a.shorter, b.shorter);
    grown = Grows-trans a.grown b.grown;
    owned = λ mine roots o. let (more, o') = a.owned mine roots o in b.owned more roots o';
  }

  pub Present-Moves : {s t : Restoring T N E} (i : S.Key) → Moves s t → Present s i → Present t i
  Present-Moves i a (inl (v, e)) = elim (a.moved i v e) [
    | inl left ↦ inl (v, left)
    | inr at ↦ inr at
  ]
  Present-Moves i a (inr (p, at)) = inr (p, a.kept i p at)

  pub Apart-Moves : {s t : Restoring T N E} → Moves s t → Apart s → Apart t
  Apart-Moves {s} {t} a apart i v left = elim (Option-cases (found t i)) [
    | inl e ↦ e
    | inr (p, at) ↦ elim (a.only i p at) [
      | inl before ↦ absurd (ground (arith, apart i v (a.fewer i v left)))
      | inr (w, to_make, gone) ↦ absurd (ground arith)
    ]
  ]
