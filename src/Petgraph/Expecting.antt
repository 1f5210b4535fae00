-- ===== src/Petgraph/Expecting.antt =====
-- The calls of `expect` in src/petgraph.rs and src/petgraph/edge_ref.rs do not panic on the edges
-- that the graph hands out.
use mathlib.Core.Option
use relrc.Prelude.{
  ◌≡◌, refl, inl, inr, Bool, true, some, List, [], ◌∷◌, map, arith, Option-cases, Bool-cases,
  Option, All, All-map, All-append,
}
use relrc.SlotMap.{SlotMaps, SecondaryMaps}
use relrc.Object.{InnerEdgeData}
use relrc.World.{World}
use relrc.History
use relrc.History.{
  HistoryGraph, EdgeId, all_node_ids, keep_if, filter_some, contains_edge, get_edge, incoming_edges,
  parents,
}
use relrc.History.Sources.{contains_edge-source}
use relrc.Petgraph.{
  Direction, EdgeRef, collect, flat_map, neighbors_directed, edge_references, edge_data, source,
  target,
}

-- What is kept by a test passes it.
keep_if-All : {A : Type 0} (f : A → Bool) (xs : List A) → All (λ x. f x ≡ true) (keep_if f xs)
keep_if-All f [] = tt
keep_if-All f (x ∷ xs) = elim (Bool-cases (f x)) [
  | inl kept ↦ rw (kept, keep_if) (kept, keep_if-All f xs)
  | inr out ↦ rw (out, keep_if) (keep_if-All f xs)
]

-- Where every value is there, nothing panics, and leaving out what is not there leaves out nothing.
collect-filter_some :
    {A B : Type 0} (f : A → Option B) (xs : List A)
    → All (λ x. (b : B) × (f x ≡ some b)) xs
    → collect (map f xs) ≡ some (filter_some f xs)
unfolding Option.bind
collect-filter_some f [] all = refl
collect-filter_some f (x ∷ xs) ((b, e), all) =
    rw (filter_some, e, collect-filter_some f xs all) refl

module _ {A B : Type 0} (P : B → Type 0) where
  All-flat_map : (f : A → List B) (xs : List A) → ((x : A) → All P (f x)) → All P (flat_map f xs)
  All-flat_map f [] each = tt
  All-flat_map f (x ∷ xs) each =
      All-append P (f x) (flat_map f xs) (each x) (All-flat_map f xs each)

  All-of_map : (f : A → B) (xs : List A) → All (λ x. P (f x)) xs → All P (map f xs)
  All-of_map f [] all = tt
  All-of_map f (x ∷ xs) (here, all) = (here, All-of_map f xs all)

module _ {S : SlotMaps} {T : SecondaryMaps S} {N E : Type 0} (g : HistoryGraph T)
    (w : World S N E) where
  incoming_edges-source :
      (n : S.Key)
      → All (λ e. (id : S.Key) × (History.source g w e ≡ some id)) (incoming_edges g w n)
  unfolding incoming_edges
  incoming_edges-source n =
      All-map _ (λ e there. contains_edge-source g w e there) (keep_if-All (contains_edge g w) _)

  -- The neighbours of a node against the edges are its parents: no call of `expect` panics.
  pub neighbors_directed-parents :
      (n : S.Key) → neighbors_directed g w n Direction.incoming ≡ (some (parents g w n), w)
  unfolding neighbors_directed parents
  neighbors_directed-parents n =
      rw (collect-filter_some (History.source g w) (incoming_edges g w n) (incoming_edges-source n))
        refl

-- The calls of `expect` in a reference to an edge do not panic.
pub record Answers {S : SlotMaps} {T : SecondaryMaps S} {N E : Type 0} (w : World S N E)
    (e : EdgeRef T) : Type 0 where
  pub data_there : (d : InnerEdgeData E) × (edge_data e w ≡ some d)
  pub source_there : (id : S.Key) × (source e w ≡ some id)
  pub target_there : target e w ≡ some e.id.target

module _ {S : SlotMaps} {T : SecondaryMaps S} {N E : Type 0} (g : HistoryGraph T)
    (w : World S N E) where
  contains_edge-Answers :
      (e : EdgeId S) → contains_edge g w e ≡ true → Answers w (record { id = e; history = g })
  unfolding edge_data source target contains_edge History.target
  contains_edge-Answers e there = record {
    data_there = elim (Option-cases (get_edge g w e)) [
      | inl gone ↦ absurd (ground arith)
      | inr found ↦ found
    ];
    source_there = contains_edge-source g w e there;
    target_there = rw there refl;
  }

  -- Each edge that `edge_references` yields has data, a source and a target in the graph.
  pub edge_references-Answers : All (Answers w) (edge_references g w)
  unfolding edge_references incoming_edges
  edge_references-Answers =
      All-flat_map (Answers w) (λ n. map _ (incoming_edges g w n)) (all_node_ids g)
        λ n. All-of_map (Answers w) _ (incoming_edges g w n) (
          All-map (incoming_edges g w n) (contains_edge-Answers)
            (keep_if-All (contains_edge g w) _))
