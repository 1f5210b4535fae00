-- ===== src/Detached/Building/Copying.antt =====
-- What `attach` of src/detached.rs has built at any time: copies of detached objects.
pub mod Inserting
pub mod Ending
use mathlib.Core.Option
use relrc.Prelude.{
  ℕ, ◌+◌, ◌<◌, ◌≤◌, ◌≡◌, ◌≢◌, ◌⊎◌, inl, inr, refl, sym, ◌∙◌, subst, true, false, Option, none, some,
  List, [], ◌∷◌, ◌++◌, map, arith, All, if◌then◌else◌, ◌==◌, count, count-append, length,
  Bool-cases, Option-cases, get_elem?, get_elem?_beyond,
}
use relrc.Object.{Ptr, InnerEdgeData, Heap, strong_count, clone}
use relrc.Node.{with_parents, incoming_edges}
use relrc.Counts.{IsCounted}
use relrc.Counts.Update.{IsCounted-count}
use relrc.Counts.Creating.{handles, with_parents-IsCounted, clone-IsCounted}
use relrc.Program.Later.{made}
use relrc.Mpi.Message.{Hashes}
use relrc.Mpi.Transfer.{DetachedInnerData}
use relrc.Mpi.Protocol.{find_data, insert_data}
use relrc.Mpi.Protocol.Asking.{find_data-insert_data}
use relrc.Serialization.Restoring.Heaps.{
  Grows, Grows-refl, Grows-trans, clone-Grows, with_parents-Grows, with_parents_new,
  with_parents_made, lt_of_alive,
}
use relrc.Serialization.Restoring.Restored.{SameEdges}
use relrc.Detached.{Detached, hash_eq}
use relrc.Detached.Building.{find_relrc, find_parents, build, build_all}
use relrc.Detached.Building.Handles.{
  values, find_data-owned, values-insert_data, find_relrc-insert_data,
}

-- A hash that `find` finds, `find'` finds too.
pub SameEdges-mono :
    {K E : Type 0} (find find' : K → Option Ptr) (q : Ptr) (ks : List (K × E))
    (es : List (InnerEdgeData E))
    → ((k : K) (p : Ptr) → find k ≡ some p → find' k ≡ some p)
    → SameEdges find q ks es
    → SameEdges find' q ks es
SameEdges-mono find find' q [] [] more same = tt
SameEdges-mono find find' q [] (e ∷ es) more same = same
SameEdges-mono find find' q ((k, x) ∷ ks) [] more same = same
SameEdges-mono find find' q ((k, x) ∷ ks) (e ∷ es) more (at, value, target, same) =
    (more k e.source at, value, target, SameEdges-mono find find' q ks es more same)

module _ (H : Hashes) {N E : Type 0} (d : Detached H N E)
    (attach_to : List (H.RelRcHash × Ptr)) where
  -- In memory `g`, node `q` is a new copy of the object with hash `k`: it was not alive in memory `h`,
  -- it has the value and the edges in order, and each edge comes from the copy of the parent, or from
  -- the parent that is in `attach_to`.
  pub record IsBuilt (h : Heap N E) (new : List (H.RelRcHash × Ptr)) (g : Heap N E)
      (k : H.RelRcHash) (q : Ptr) : Type 0 where
    pub inner : DetachedInnerData H N E
    pub listed : find_data H d.all_data k ≡ some inner
    pub fresh : strong_count h q ≡ 0
    pub edges : List (InnerEdgeData E)
    pub made_as : made g q ≡ some (inner.value, edges)
    pub joined : SameEdges (find_relrc H new attach_to) q inner.incoming edges

  -- What is true after some objects were built, from memory `h` on.
  pub record IsBuilding (roots : List Ptr) (h : Heap N E) (new : List (H.RelRcHash × Ptr))
      (g : Heap N E) : Type 0 where
    pub counts : IsCounted (values H new ++ roots) g
    pub grown : Grows h g
    pub built : (k : H.RelRcHash) (q : Ptr) → find_data H new k ≡ some q → IsBuilt h new g k q
    pub distinct :
        (j k : H.RelRcHash) (q : Ptr)
        → find_data H new j ≡ some q
        → find_data H new k ≡ some q
        → j ≡ k

  -- What `find_parents` takes: a handle of each parent, and the edges that `with_parents` makes of them
  pub record Found (new : List (H.RelRcHash × Ptr)) (roots : List Ptr) (es : List (H.RelRcHash × E))
      (h : Heap N E) (out : List (Ptr × E) × Heap N E) : Type 0 where
    pub owned : IsCounted (handles out.0 ++ roots) out.1
    pub kept : Grows h out.1
    pub same : (q : Ptr) → SameEdges (find_relrc H new attach_to) q es (incoming_edges q out.0)

  pub find_parents-Found :
      (new : List (H.RelRcHash × Ptr)) (roots : List Ptr) (es : List (H.RelRcHash × E))
      (h : Heap N E) (out : List (Ptr × E) × Heap N E)
      → IsCounted roots h
      → ((k : H.RelRcHash) (p : Ptr) → find_relrc H new attach_to k ≡ some p → 0 < count p roots)
      → find_parents H new attach_to es h ≡ some out
      → Found new roots es h out
  unfolding find_parents incoming_edges Option.bind
  find_parents-Found new roots [] h out c own returned =
      let is : ([], h) ≡ out = cc in
      subst (Found new roots [] h) is (record { owned = c; kept = Grows-refl h; same = λ q. tt })
  find_parents-Found new roots ((k, x) ∷ es) h out c own returned =
      elim (Option-cases (find_relrc H new attach_to k)) [
        | inl gone ↦ absurd (ground arith)
        | inr (p, found) ↦ elim (Option-cases (find_parents H new attach_to es (clone p h))) [
          | inl gone ↦ absurd (ground arith)
          | inr ((rest, g), e) ↦
              let owned : 0 < count p roots = own k p found in
              let live : 0 < strong_count h p = omega (arith, c.counted p) in
              let more = clone-IsCounted c p live in
              let r =
                find_parents-Found new (p ∷ roots) es (clone p h) (rest, g) more
                  (λ j q at. omega (arith, own j q at)) e in
              let all : some ((p, x) ∷ rest, g) ≡ some out = rw (found, e) at returned in
              let is : ((p, x) ∷ rest, g) ≡ out = cc in
              subst (Found new roots ((k, x) ∷ es) h) is (record {
                owned =
                    IsCounted-count
                      (λ q. omega (
                        arith,
                        count-append q (handles rest) (p ∷ roots),
                        count-append q (handles rest) roots,
                      ))
                      r.owned;
                kept = Grows-trans (clone-Grows p h) r.kept;
                same = λ q. (found, refl, refl, r.same q);
              })
        ]
      ]

  pub find_relrc-owned :
      (new : List (H.RelRcHash × Ptr)) (roots : List Ptr)
      → ((k : H.RelRcHash) (p : Ptr) → find_data H attach_to k ≡ some p → 0 < count p roots)
      → (k : H.RelRcHash) (p : Ptr) → find_relrc H new attach_to k ≡ some p
      → 0 < count p (values H new ++ roots)
  find_relrc-owned new roots given k p found = elim (Option-cases (find_data H new k)) [
    | inl gone ↦
        let at = given k p (rw (find_relrc, gone) at found) in
        omega (arith, count-append p (values H new) roots)
    | inr (q, e) ↦
        let is : some q ≡ some p = rw (find_relrc, e) at found in
        let at = find_data-owned H new k p (e ∙ is) in
        omega (arith, count-append p (values H new) roots)
  ]

  -- What an object is a copy of does not change as memory grows and more is found.
  pub IsBuilt-mono :
      (h : Heap N E) (new new' : List (H.RelRcHash × Ptr)) (g g' : Heap N E) (k : H.RelRcHash)
      (q : Ptr)
      → made g' q ≡ made g q
      → ((j : H.RelRcHash) (p : Ptr)
          → find_relrc H new attach_to j ≡ some p
          → find_relrc H new' attach_to j ≡ some p)
      → IsBuilt h new g k q
      → IsBuilt h new' g' k q
  IsBuilt-mono h new new' g g' k q kept more b = record {
    inner = b.inner;
    listed = b.listed;
    fresh = b.fresh;
    edges = b.edges;
    made_as = kept ∙ b.made_as;
    joined = SameEdges-mono _ _ q b.inner.incoming b.edges more b.joined;
  }
