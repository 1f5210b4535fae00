-- ===== src/Serialization/Saving/Returning.antt =====
-- When `Registry::to_serialized` of src/serialization.rs returns, and what it saves.
use relrc.Prelude.{
  ◌≡◌, ◌≢◌, ◌↔◌, refl, ◌∙◌, inl, inr, true, false, none, some, List, [], ◌∷◌, arith, All, ◌==◌,
  Option-cases, get_elem?,
}
use mathlib.Core.Option
use relrc.SlotMap.{SlotMaps}
use relrc.Object.{Ptr, InnerData, InnerEdgeData, Heap, deref, strong_count, upgrade}
use relrc.Registry
use relrc.Registry.{Registry, get_id}
use relrc.Serialization.Format.{SerializedInnerData, SerializedRegistry}
use relrc.Serialization.Saving.{save_edges, serialize_inner_data, to_serialized}

-- The serialised edges against those of a node: the ids are those of the sources.
abbrev pub SavedEdges :
    {S : SlotMaps} {E : Type 0} (r : Registry S)
    → List (S.Key × E)
    → List (InnerEdgeData E)
    → Type 0
SavedEdges r [] [] = Unit {0}
SavedEdges r ((k, x) ∷ ks) (e ∷ es) =
    (get_id r e.source ≡ some k) × (e.value ≡ x) × SavedEdges r ks es
SavedEdges r _ _ = ⊥

-- The parent at the other end of an edge has an id.
abbrev pub HasId : {S : SlotMaps} {E : Type 0} → Registry S → InnerEdgeData E → Type 0
HasId {S} r e = (k : S.Key) × (get_id r e.source ≡ some k)

save_edges-SavedEdges :
    {S : SlotMaps} {E : Type 0} (r : Registry S) (es : List (InnerEdgeData E))
    (ks : List (S.Key × E))
    → save_edges r es ≡ some ks
    → SavedEdges r ks es
unfolding save_edges Option.bind
save_edges-SavedEdges r [] [] eq = tt
save_edges-SavedEdges r [] (k ∷ ks) eq = cc
save_edges-SavedEdges r (e ∷ es) ks eq = elim (Option-cases (get_id r e.source)) [
  | inl gone ↦ absurd (ground arith)
  | inr (k, known) ↦ elim (Option-cases (save_edges r es)) [
    | inl gone ↦ absurd (ground arith)
    | inr (rest, is) ↦
        let all : ks ≡ (k, e.value) ∷ rest = ground arith in
        rw all (known, refl, save_edges-SavedEdges r es rest is)
  ]
]

save_edges_all :
    {S : SlotMaps} {E : Type 0} (r : Registry S) (es : List (InnerEdgeData E))
    → All (HasId r) es
    → (ks : List (S.Key × E)) × (save_edges r es ≡ some ks)
unfolding save_edges Option.bind
save_edges_all r [] known = ([], refl)
save_edges_all r (e ∷ es) ((k, known), rest) =
    let (ks, is) = save_edges_all r es rest in ((k, e.value) ∷ ks, rw (known, is) refl)

SavedEdges-HasId :
    {S : SlotMaps} {E : Type 0} (r : Registry S) (ks : List (S.Key × E))
    (es : List (InnerEdgeData E))
    → SavedEdges r ks es
    → All (HasId r) es
SavedEdges-HasId r [] [] saved = tt
SavedEdges-HasId r [] (e ∷ es) saved = absurd saved
SavedEdges-HasId r (k ∷ ks) [] saved = tt
SavedEdges-HasId r ((k, x) ∷ ks) (e ∷ es) (known, value, saved) =
    ((k, known), SavedEdges-HasId r ks es saved)

-- A node whose data is there has handles.
live_of_deref :
    {N E : Type 0} (h : Heap N E) (p : Ptr) {inner : InnerData N E}
    → deref h p ≡ some inner
    → (strong_count h p == 0) ≡ false
live_of_deref h p alive = elim (Option-cases (get_elem? h p)) [
  | inl e ↦ absurd (ground arith)
  | inr (b, e) ↦ ground arith
]

dead_of_deref :
    {N E : Type 0} (h : Heap N E) (p : Ptr) → deref h p ≡ none → (strong_count h p == 0) ≡ true
dead_of_deref h p dead = elim (Option-cases (get_elem? h p)) [
  | inl e ↦ ground arith
  | inr (b, e) ↦ ground arith
]

module _ {S : SlotMaps} {N E : Type 0} (r : Registry S) (h : Heap N E) where
  -- What is saved of a node that is alive.
  serialize_inner_data_alive :
      (i : S.Key) (p : Ptr) (inner : InnerData N E)
      → S.get Ptr r.nodes i ≡ some p
      → deref h p ≡ some inner
      → serialize_inner_data i r h
        ≡ Option.map
            (λ incoming. record { value = inner.value; incoming = incoming })
            (save_edges r inner.incoming)
  unfolding serialize_inner_data Registry.get upgrade Option.bind
  serialize_inner_data_alive i p inner at alive =
      rw (serialize_inner_data, Registry.get, at, upgrade, live_of_deref h p alive, alive) refl

  serialize_inner_data_dead :
      (i : S.Key) (p : Ptr)
      → S.get Ptr r.nodes i ≡ some p
      → deref h p ≡ none
      → serialize_inner_data i r h ≡ none
  unfolding serialize_inner_data Registry.get upgrade Option.bind
  serialize_inner_data_dead i p at dead =
      rw (serialize_inner_data, Registry.get, at, upgrade, dead_of_deref h p dead) refl

  -- What `to_serialized` saved of a node.
  pub record Saved (ser : SerializedRegistry S N E) (i : S.Key) (p : Ptr) : Type 0 where
    pub inner : InnerData N E
    pub alive : deref h p ≡ some inner
    pub edges : List (S.Key × E)
    pub same : SavedEdges r edges inner.incoming
    pub listed :
        S.get (SerializedInnerData S.Key N E) ser.nodes i
        ≡ some (record { value = inner.value; incoming = edges })

  module _ (ser : SerializedRegistry S N E) (returned : to_serialized r h ≡ some ser) where
    map_returned :
        S.map Ptr (SerializedInnerData S.Key N E) r.nodes (λ k _. serialize_inner_data k r h)
        ≡ some ser.nodes
    unfolding to_serialized
    map_returned =
        elim (Option-cases
          (S.map Ptr (SerializedInnerData S.Key N E) r.nodes (λ k _. serialize_inner_data k r h))) [
            | inl e ↦ absurd (ground arith)
            | inr (n, e) ↦ ground arith
          ]

    pub get-saved :
        (i : S.Key)
        → S.get (SerializedInnerData S.Key N E) ser.nodes i
          ≡ Option.bind (S.get Ptr r.nodes i) (λ _. serialize_inner_data i r h)
    get-saved i =
        S.get-map Ptr (SerializedInnerData S.Key N E) r.nodes (λ k _. serialize_inner_data k r h)
          ser.nodes map_returned i

    not_none :
        (i : S.Key) (p : Ptr) → S.get Ptr r.nodes i ≡ some p → serialize_inner_data i r h ≢ none
    not_none i p at panics =
        let gone =
          S.map-none Ptr (SerializedInnerData S.Key N E) r.nodes (λ k _. serialize_inner_data k r h)
            i p at panics in
        let both = map_returned in absurd (ground arith)

    -- Each node of the registry is alive and saved.
    pub to_serialized-Saved : (i : S.Key) (p : Ptr) → S.get Ptr r.nodes i ≡ some p → Saved ser i p
    unfolding Option.bind
    to_serialized-Saved i p at = elim (Option-cases (deref h p)) [
      | inl dead ↦ absurd (not_none i p at (serialize_inner_data_dead i p at dead))
      | inr (inner, alive) ↦ elim (Option-cases (save_edges r inner.incoming)) [
        | inl gone ↦
            let panics : serialize_inner_data i r h ≡ none =
              serialize_inner_data_alive i p inner at alive ∙ rw gone refl in
            absurd (not_none i p at panics)
        | inr (ks, is) ↦ record {
          inner = inner;
          alive = alive;
          edges = ks;
          same = save_edges-SavedEdges r inner.incoming ks is;
          listed =
              get-saved i
              ∙ rw (at, Option.bind) (serialize_inner_data_alive i p inner at alive ∙ rw is refl);
        }
      ]
    ]

    -- Nothing else is saved.
    pub saved_listed :
        (i : S.Key) (v : SerializedInnerData S.Key N E)
        → S.get (SerializedInnerData S.Key N E) ser.nodes i ≡ some v
        → (p : Ptr) × (S.get Ptr r.nodes i ≡ some p)
    unfolding Option.bind
    saved_listed i v e = elim (Option-cases (S.get Ptr r.nodes i)) [
      | inl gone ↦ absurd (ground (arith, get-saved i))
      | inr at ↦ at
    ]

  -- `to_serialized` returns exactly if each node of the registry is alive and each of its parents is in
  -- the registry too: otherwise it panics.
  pub to_serialized_iff : ((ser : SerializedRegistry S N E) × (to_serialized r h ≡ some ser)) ↔ (
      (i : S.Key) (p : Ptr)
      → S.get Ptr r.nodes i ≡ some p
      → (inner : InnerData N E) × (deref h p ≡ some inner) × All (HasId r) inner.incoming)
  unfolding to_serialized
  to_serialized_iff = (
    λ (ser, returned) i p at.
        let s = to_serialized-Saved ser returned i p at in
        (s.inner, s.alive, SavedEdges-HasId r s.edges s.inner.incoming s.same),
    λ closed.
        let (nodes, e) =
          S.map-some Ptr (SerializedInnerData S.Key N E) r.nodes (λ k _. serialize_inner_data k r h)
            (λ i p at.
              let (inner, alive, known) = closed i p at in
              let (ks, is) = save_edges_all r inner.incoming known in
              (
                record { value = inner.value; incoming = ks },
                serialize_inner_data_alive i p inner at alive ∙ rw is refl,
              )) in
        (record { nodes = nodes }, rw e refl),
  )
