-- ===== src/Serialization/Restoring/Parents.antt =====
-- The end of `deserialize_node` of src/serialization.rs: the handles of the parents are cloned, and
-- the node is made with edges from them.
use relrc.Prelude.{
  ◌<◌, ◌≡◌, refl, sym, ◌∙◌, subst, inl, inr, Option, none, some, List, [], ◌∷◌, ◌++◌, arith, All,
  count-append, if◌then◌else◌, Bool-cases,
}
use mathlib.Core.Option
use relrc.SlotMap.{SlotMaps, SecondaryMaps}
use relrc.SlotMap.Inserting.{get-insert_alone}
use relrc.Object.{Ptr, InnerEdgeData, Heap, clone, strong_count}
use relrc.Counts.{IsCounted}
use relrc.Counts.Update.{IsCounted-count}
use relrc.Counts.Creating.{handles, clone-IsCounted, with_parents-IsCounted}
use relrc.Node.{incoming_edges, with_parents}
use relrc.Serialization.Format.{SerializedInnerData}
use relrc.Serialization.Restoring.{Restoring, clone_parents, rebuild}
use relrc.Serialization.Restoring.Heaps.{
  Grows, Grows-refl, Grows-trans, clone-Grows, with_parents-Grows, with_parents_made,
  with_parents_unregistered, with_parents_new, lt_of_alive,
}
use relrc.Serialization.Restoring.Restored.{SameEdges, IsRestored, IsGood, found}

module _ {K E : Type 0} (find later : K → Option Ptr)
    (keeps : (k : K) (p : Ptr) → find k ≡ some p → later k ≡ some p) where
  pub SameEdges-later :
      (p : Ptr) (ks : List (K × E)) (es : List (InnerEdgeData E))
      → SameEdges find p ks es
      → SameEdges later p ks es
  SameEdges-later p [] [] same = tt
  SameEdges-later p [] (e ∷ es) same = same
  SameEdges-later p ((k, x) ∷ ks) [] same = same
  SameEdges-later p ((k, x) ∷ ks) (e ∷ es) (at, value, target, rest) =
      (keeps k e.source at, value, target, SameEdges-later p ks es rest)

  pub IsRestored-later :
      {N : Type 0} (saved : K → Option (SerializedInnerData K N E)) (h g : Heap N E) (i : K)
      (p : Ptr)
      → Grows h g
      → IsRestored saved find h i p
      → IsRestored saved later g i p
  IsRestored-later saved h g i p grows r = record {
    node = r.node;
    listed = r.listed;
    alive = grows.alive p r.alive;
    unregistered = grows.registry p r.alive ∙ r.unregistered;
    edges = r.edges;
    made_as = grows.same p r.alive ∙ r.made_as;
    joined = SameEdges-later p r.node.incoming r.edges r.joined;
  }

module _ {S : SlotMaps} (T : SecondaryMaps S) {N E : Type 0} where
  -- The handles of the parents, where all of them are there.
  clone_parents_lem :
      (a : T.SecondaryMap Ptr) (edges : List (S.Key × E)) (h : Heap N E)
      → All (λ e. (p : Ptr) × (T.get Ptr a e.0 ≡ some p)) edges
      → ((k : S.Key) (p : Ptr) → T.get Ptr a k ≡ some p → 0 < strong_count h p)
      → (incoming : List (Ptr × E)) × (g : Heap N E) × (clone_parents T a edges h
          ≡ some (incoming, g))
        × Grows h g
        × ((q : Ptr) → SameEdges (T.get Ptr a) q edges (incoming_edges q incoming))
        × ((roots : List Ptr) → IsCounted roots h → IsCounted (handles incoming ++ roots) g)
  unfolding clone_parents Option.bind incoming_edges
  clone_parents_lem a [] h there alive = ([], h, refl, Grows-refl h, λ q. tt, λ roots c. c)
  clone_parents_lem a ((k, x) ∷ edges) h ((p, at), there) alive =
      let (incoming, g, eq, grows, same, counts) =
        clone_parents_lem a edges (clone p h) there
          (λ j q at_j. (clone-Grows p h).alive q (alive j q at_j)) in
      (
        (p, x) ∷ incoming,
        g,
        rw (at, eq) refl,
        Grows-trans (clone-Grows p h) grows,
        λ q. (at, refl, refl, same q),
        λ roots c.
            IsCounted-count
              (λ q. ground (
                arith,
                count-append q (handles incoming) (p ∷ roots),
                count-append q (handles incoming) roots,
              ))
              (counts (p ∷ roots) (clone-IsCounted c p (alive k p at))),
      )

module _ {S : SlotMaps} {T : SecondaryMaps S} {N E : Type 0}
    (saved : S.Key → Option (SerializedInnerData S.Key N E)) (s : Restoring T N E) (i : S.Key)
    (v : SerializedInnerData S.Key N E) where
  -- The node is made and noted under its id; all else stays.
  pub rebuild_lem :
      IsGood saved s
      → saved i ≡ some v
      → found s i ≡ none
      → ((k : S.Key) (p : Ptr) → found s k ≡ some p → S.slot k ≡ S.slot i → k ≡ i)
      → All (λ e. (p : Ptr) × (found s e.0 ≡ some p)) v.incoming
      → (t : Restoring T N E) × (p : Ptr) × (rebuild i v s ≡ some t)
        × ((k : S.Key) → found t k ≡ (if S.key_eq i k then some p else found s k))
        × (t.serialised_nodes ≡ s.serialised_nodes)
        × Grows s.heap t.heap
        × IsGood saved t
        × ((roots : List Ptr) → IsCounted roots s.heap → IsCounted (p ∷ roots) t.heap)
  unfolding rebuild
  rebuild_lem good listed new alone there =
      let (incoming, g, eq, grows, same, counts) =
        clone_parents_lem T s.all_nodes v.incoming s.heap there
          (λ k q at. (good.restored k q at).alive) in
      let (p, h) = with_parents v.value incoming g in
      let t : Restoring T N E = record s { all_nodes = T.insert Ptr s.all_nodes i p; heap = h } in
      let find : (k : S.Key) → found t k ≡ (if S.key_eq i k then some p else found s k) =
        λ k. get-insert_alone T s.all_nodes i alone k p in
      let keeps : (k : S.Key) (q : Ptr) → found s k ≡ some q → found t k ≡ some q = λ k q at.
        elim (Bool-cases (S.key_eq i k)) [
          | inl same_key ↦ absurd (
              ground
                (arith, new, at, subst (λ j. found s j ≡ none) ((S.key_eq_iff i k).0 same_key) new))
          | inr other ↦ ground (arith, find k)
        ] in
      let later = Grows-trans grows (with_parents-Grows v.value incoming g) in
      let before : (k : S.Key) (q : Ptr) → found s k ≡ some q → q < p = λ k q at. omega (
        arith,
        lt_of_alive g q (grows.alive q (good.restored k q at).alive),
        with_parents_new v.value incoming g,
      ) in
      let (live, made_as) = with_parents_made v.value incoming g in
      let here : IsRestored saved (found t) h i p = record {
        node = v;
        listed = listed;
        alive = live;
        unregistered = with_parents_unregistered v.value incoming g;
        edges = incoming_edges p incoming;
        made_as = made_as;
        joined = SameEdges-later (found s) (found t) keeps p v.incoming _ (same p);
      } in
      (
        t,
        p,
        rw eq refl,
        find,
        refl,
        later,
        record {
          distinct = λ j k q at_j at_k. elim (Bool-cases (S.key_eq i j)) [
            | inl is_j ↦ elim (Bool-cases (S.key_eq i k)) [
              | inl is_k ↦ sym ((S.key_eq_iff i j).0 is_j) ∙ (S.key_eq_iff i k).0 is_k
              | inr not_k ↦
                  let same_node : p ≡ q = ground (arith, find j, at_j) in
                  absurd (omega (arith, same_node, before k q (ground (arith, find k, at_k))))
            ]
            | inr not_j ↦ elim (Bool-cases (S.key_eq i k)) [
              | inl is_k ↦
                  let same_node : p ≡ q = ground (arith, find k, at_k) in
                  absurd (omega (arith, same_node, before j q (ground (arith, find j, at_j))))
              | inr not_k ↦
                  good.distinct j k q (ground (arith, find j, at_j)) (ground (arith, find k, at_k))
            ]
          ];
          restored = λ k q at. elim (Bool-cases (S.key_eq i k)) [
            | inl same_key ↦
                let same_node : p ≡ q = ground (arith, find k, at) in
                subst (λ j. IsRestored saved (found t) h j q) ((S.key_eq_iff i k).0 same_key)
                  (subst (λ o. IsRestored saved (found t) h i o) same_node here)
            | inr other ↦
                IsRestored-later (found s) (found t) keeps saved s.heap h k q later
                  (good.restored k q (ground (arith, find k, at)))
          ];
          left = good.left;
        },
        λ roots c. with_parents-IsCounted v.value incoming g roots (counts roots c),
      )
