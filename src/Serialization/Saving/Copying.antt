-- ===== src/Serialization/Saving/Copying.antt =====
-- `from_serialized` after `to_serialized` (src/serialization.rs) makes a copy of each node.
use relrc.Prelude.{
  ℕ, ◌<◌, ◌≡◌, refl, sym, ◌∙◌, subst, inl, inr, Option, none, some, List, [], ◌∷◌, arith, All, ◌==◌,
  Option-cases, Bool-cases, get_elem?,
}
use relrc.SlotMap.{SlotMaps, SecondaryMaps}
use relrc.Object.{Ptr, InnerData, InnerEdgeData, Heap, deref, strong_count, sources}
use relrc.Registry.{Registry, get_id}
use relrc.Registry.Bijection.{Bijective}
use relrc.Counts.{IsCounted, sources_at}
use relrc.Program.Later.{made}
use relrc.Serialization.Format.{SerializedInnerData, SerializedRegistry}
use relrc.Serialization.Restoring.Heaps.{Grows}
use relrc.Serialization.Restoring.Restored.{SameEdges, Below, IsRanked, IsRestored}
use relrc.Serialization.Saving.{to_serialized, from_serialized}
use relrc.Serialization.Saving.Reading.{from_serialized-Read}
use relrc.Serialization.Saving.Returning.{SavedEdges, to_serialized-Saved, saved_listed}

-- The edges of a copy against those of the node: their sources have the same ids.
abbrev pub CopiedEdges :
    {S : SlotMaps} {E : Type 0}
    → Registry S
    → (S.Key → Option Ptr)
    → Ptr
    → List (InnerEdgeData E)
    → List (InnerEdgeData E)
    → Type 0
CopiedEdges r find q [] [] = Unit {0}
CopiedEdges {S} r find q (d ∷ ds) (e ∷ es) =
    ((k : S.Key) × (get_id r d.source ≡ some k) × (find k ≡ some e.source))
    × (e.value ≡ d.value)
    × (e.target ≡ q)
    × CopiedEdges r find q ds es
CopiedEdges r find q _ _ = ⊥

pub CopiedEdges_of :
    {S : SlotMaps} {E : Type 0} (r : Registry S) (find : S.Key → Option Ptr) (q : Ptr)
    (ks : List (S.Key × E)) (ds es : List (InnerEdgeData E))
    → SavedEdges r ks ds
    → SameEdges find q ks es
    → CopiedEdges r find q ds es
CopiedEdges_of r find q [] [] [] saved same = tt
CopiedEdges_of r find q [] [] (e ∷ es) saved same = same
CopiedEdges_of r find q [] (d ∷ ds) es saved same = absurd saved
CopiedEdges_of r find q ((k, x) ∷ ks) [] es saved same = absurd saved
CopiedEdges_of r find q ((k, x) ∷ ks) (d ∷ ds) [] saved same = same
CopiedEdges_of r find q ((k, x) ∷ ks) (d ∷ ds) (e ∷ es) (known, value, saved)
      (at, value', target, same) =
    ((k, known, at), value' ∙ sym value, target, CopiedEdges_of r find q ks ds es saved same)

-- The node with id `i` was `p`, and its copy is found under the same id.
pub record Copy {S : SlotMaps} {N E : Type 0} (r : Registry S) (h g : Heap N E)
    (find : S.Key → Option Ptr) (i : S.Key) (p : Ptr) : Type 0 where
  pub node : Ptr
  pub at : find i ≡ some node
  pub alive : 0 < strong_count g node
  pub value : N
  pub old_edges : List (InnerEdgeData E)
  pub new_edges : List (InnerEdgeData E)
  pub was : made h p ≡ some (value, old_edges)
  pub is : made g node ≡ some (value, new_edges)
  pub edges : CopiedEdges r find node old_edges new_edges

-- What `from_serialized` returned: `s` lists the copies of the nodes of `r` under their ids.
pub record IsCopy {S : SlotMaps} {N E : Type 0} (r : Registry S) (h : Heap N E) (s : Registry S)
    (find : S.Key → Option Ptr) (g : Heap N E) : Type 0 where
  pub copies : (i : S.Key) (p : Ptr) → S.get Ptr r.nodes i ≡ some p → Copy r h g find i p
  pub only : (i : S.Key) (q : Ptr) → find i ≡ some q → (p : Ptr) × (S.get Ptr r.nodes i ≡ some p)
  pub distinct : (i k : S.Key) (q : Ptr) → find i ≡ some q → find k ≡ some q → i ≡ k
  pub same_ids : (i : S.Key) → S.get Ptr s.nodes i ≡ find i
  pub grown : Grows h g

pub made_of_deref :
    {N E : Type 0} (h : Heap N E) (p : Ptr) (inner : InnerData N E)
    → deref h p ≡ some inner
    → (made h p ≡ some (inner.value, inner.incoming)) × (sources_at h p ≡ sources inner.incoming)
made_of_deref h p inner alive = elim (Option-cases (get_elem? h p)) [
  | inl e ↦ absurd (ground arith)
  | inr (b, e) ↦ elim (Bool-cases (b.strong == 0)) [
    | inl dead ↦ absurd (ground arith)
    | inr live ↦ let same : b.inner ≡ inner = ground arith in rw (e, same) (refl, refl)
  ]
]

abbrev rank_of : Option Ptr → ℕ
rank_of none = 0
rank_of (some p) = p

module _ {S : SlotMaps} {N E : Type 0} (r : Registry S) (h : Heap N E) {roots : List Ptr}
    (c : IsCounted roots h) (b : Bijective r) (ser : SerializedRegistry S N E)
    (returned : to_serialized r h ≡ some ser) where
  abbrev pub rank : S.Key → ℕ
  rank i = rank_of (S.get Ptr r.nodes i)

  below :
      (n : ℕ) (ks : List (S.Key × E)) (es : List (InnerEdgeData E))
      → SavedEdges r ks es
      → All (λ q. q < n) (sources es)
      → All (Below (S.get (SerializedInnerData S.Key N E) ser.nodes) rank n) ks
  unfolding get_id
  below n [] es saved older = tt
  below n ((k, x) ∷ ks) [] saved older = absurd saved
  below n ((k, x) ∷ ks) (e ∷ es) (known, value, saved) (lower, older) =
      let at = b.ptr_of k e.source known in
      let s = to_serialized-Saved r h ser returned k e.source at in
      (
        (record { value = s.inner.value; incoming = s.edges }, s.listed, rw at lower),
        below n ks es saved older,
      )

  pub ranked : IsRanked (S.get (SerializedInnerData S.Key N E) ser.nodes) rank
  ranked i v e =
      let (p, at) = saved_listed r h ser returned i v e in
      let s = to_serialized-Saved r h ser returned i p at in
      let same : v ≡ record { value = s.inner.value; incoming = s.edges } =
        ground (arith, s.listed) in
      rw (same, at)
        (below p s.edges s.inner.incoming s.same
          (subst (λ qs. All (λ q. q < p) qs) (made_of_deref h p s.inner s.alive).1 (c.ordered p)))

  Copy-of :
      (find : S.Key → Option Ptr) (g : Heap N E) (i : S.Key) (p q : Ptr)
      → S.get Ptr r.nodes i ≡ some p
      → find i ≡ some q
      → IsRestored (S.get (SerializedInnerData S.Key N E) ser.nodes) find g i q
      → Copy r h g find i p
  Copy-of find g i p q at found o =
      let s = to_serialized-Saved r h ser returned i p at in
      let same : o.node ≡ record { value = s.inner.value; incoming = s.edges } =
        ground (arith, s.listed, o.listed) in
      record {
        node = q;
        at = found;
        alive = o.alive;
        value = s.inner.value;
        old_edges = s.inner.incoming;
        new_edges = o.edges;
        was = (made_of_deref h p s.inner s.alive).0;
        is = o.made_as ∙ rw same refl;
        edges =
            CopiedEdges_of r find q s.edges s.inner.incoming o.edges s.same
              (subst (λ n. SameEdges find q n.incoming o.edges) same o.joined);
      }

  module _ (T : SecondaryMaps S) where
    -- Where counts and registry are right, what `to_serialized` returned is read back, without a
    -- panic, as a copy of each node: alive, with its value and its edges in order, under its id. The
    -- copies of two nodes are two nodes, and nodes that are there already stay as they were.
    pub from_serialized-to_serialized :
        (s : Registry S) × (a : T.SecondaryMap Ptr) × (g : Heap N E) × (from_serialized T ser h
          ≡ some (s, a, g))
        × IsCopy r h s (T.get Ptr a) g
    from_serialized-to_serialized =
        let read = from_serialized-Read T ser h rank ranked in
        (
          read.registry,
          read.nodes,
          read.heap,
          read.returned,
          record {
            copies = λ i p at.
                let s = to_serialized-Saved r h ser returned i p at in
                let (q, found) = read.all_found i _ s.listed in
                Copy-of (T.get Ptr read.nodes) read.heap i p q at found (read.restored i q found);
            only = λ i q at.
                let o = read.restored i q at in saved_listed r h ser returned i o.node o.listed;
            distinct = read.distinct;
            same_ids = read.same_ids;
            grown = read.grown;
          },
        )
