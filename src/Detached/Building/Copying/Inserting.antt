-- ===== src/Detached/Building/Copying/Inserting.antt =====
-- One object more that `attach` of src/detached.rs builds.
use mathlib.Core.Option
use relrc.Prelude.{
  ◌<◌, ◌≡◌, ◌≢◌, ◌⊎◌, inl, inr, refl, sym, ◌∙◌, subst, none, some, List, ◌++◌, arith, ◌==◌, count,
  count-append, Bool-cases, Option-cases,
}
use relrc.Object.{Ptr, Heap, strong_count}
use relrc.Node.{with_parents, incoming_edges}
use relrc.Counts.Update.{IsCounted-count}
use relrc.Counts.Creating.{with_parents-IsCounted}
use relrc.Mpi.Message.{Hashes}
use relrc.Mpi.Transfer.{DetachedInnerData}
use relrc.Mpi.Protocol.{find_data, insert_data}
use relrc.Mpi.Protocol.Asking.{find_data-insert_data}
use relrc.Serialization.Restoring.Heaps.{
  Grows, Grows-refl, Grows-trans, with_parents-Grows, with_parents_new, with_parents_made,
  lt_of_alive,
}
use relrc.Detached.{Detached, hash_eq}
use relrc.Detached.Attaching.{hash_eq_sound}
use relrc.Detached.Building.{find_relrc, find_parents, build}
use relrc.Detached.Building.Handles.{
  values, find_data-owned, values-insert_data, find_relrc-insert_data,
}
use relrc.Detached.Building.Copying.{
  SameEdges-mono, IsBuilt, IsBuilding, Found, find_parents-Found, find_relrc-owned, IsBuilt-mono,
}

module _ (H : Hashes) {N E : Type 0} (d : Detached H N E)
    (attach_to : List (H.RelRcHash × Ptr)) where
  module _ (roots : List Ptr) (h : Heap N E)
      (given : (k : H.RelRcHash) (p : Ptr)
        → find_data H attach_to k ≡ some p
        → 0 < count p roots) where
    -- One object more, which was not there
    module _ (id : H.RelRcHash) (new : List (H.RelRcHash × Ptr)) (g : Heap N E)
        (b : IsBuilding H d attach_to roots h new g) (missing : find_data H new id ≡ none)
        (apart : find_data H attach_to id ≡ none) where
      built-alive : (k : H.RelRcHash) (q : Ptr) → find_data H new k ≡ some q → 0 < strong_count g q
      built-alive k q found = omega (
        arith,
        b.counts.counted q,
        find_data-owned H new k q found,
        count-append q (values H new) roots,
      )

      module _ (x : DetachedInnerData H N E) (listed : find_data H d.all_data id ≡ some x)
          (parents : List (Ptr × E)) (g' : Heap N E)
          (f : Found H d attach_to new (values H new ++ roots) x.incoming g (parents, g')) where
        abbrev made_node : Ptr × Heap N E
        made_node = with_parents x.value parents g'

        grown-made : Grows g made_node.1
        grown-made = Grows-trans f.kept (with_parents-Grows x.value parents g')

        not-alive : (k : Heap N E) → Grows k g → strong_count k made_node.0 ≡ 0
        not-alive k to = elim (Bool-cases (strong_count k made_node.0 == 0)) [
          | inl zero_count ↦ ground arith
          | inr more ↦
              let alive = f.kept.alive made_node.0 (to.alive made_node.0 (ground arith)) in
              absurd (
                omega
                  (arith, lt_of_alive g' made_node.0 alive, with_parents_new x.value parents g'))
        ]

        at_node :
            (k : H.RelRcHash) (q : Ptr)
            → find_data H (insert_data H new id made_node.0) k ≡ some q
            → ((id ≡ k) × (made_node.0 ≡ q)) ⊎ (find_data H new k ≡ some q)
        at_node k q found = elim (Bool-cases (hash_eq H id k)) [
          | inl same ↦
              let at : some made_node.0 ≡ some q =
                rw same at (sym (find_data-insert_data H new id made_node.0 k) ∙ found) in
              inl (hash_eq_sound H id k same, cc)
          | inr other ↦
              inr (rw other at (sym (find_data-insert_data H new id made_node.0 k) ∙ found))
        ]

        more_found :
            (k : H.RelRcHash) (p : Ptr)
            → find_relrc H new attach_to k ≡ some p
            → find_relrc H (insert_data H new id made_node.0) attach_to k ≡ some p
        more_found k p = find_relrc-insert_data H new attach_to id made_node.0 k p missing apart

        node-IsBuilt :
            IsBuilt H d attach_to h (insert_data H new id made_node.0) made_node.1 id made_node.0
        node-IsBuilt = record {
          inner = x;
          listed = listed;
          fresh = not-alive h b.grown;
          edges = incoming_edges made_node.0 parents;
          made_as = (with_parents_made x.value parents g').1;
          joined = SameEdges-mono _ _ made_node.0 x.incoming _ more_found (f.same made_node.0);
        }

        old-distinct : (k : H.RelRcHash) (q : Ptr) → made_node.0 ≡ q → find_data H new k ≢ some q
        old-distinct k q is found =
            let live = built-alive k q found in
            let dead = not-alive g (Grows-refl g) in absurd (ground arith)

        insert_data-IsBuilding :
            IsBuilding H d attach_to roots h (insert_data H new id made_node.0) made_node.1
        insert_data-IsBuilding = record {
          counts =
              IsCounted-count
                (λ q. omega (
                  arith,
                  values-insert_data H new id made_node.0 q missing,
                  count-append q (values H new) roots,
                  count-append q (values H (insert_data H new id made_node.0)) roots,
                ))
                (with_parents-IsCounted x.value parents g' (values H new ++ roots) f.owned);
          grown = Grows-trans b.grown grown-made;
          built = λ k q found. elim (at_node k q found) [
            | inl (key, is) ↦
                subst
                  (λ j. IsBuilt H d attach_to h (insert_data H new id made_node.0) made_node.1 j q)
                  key
                  (subst (IsBuilt H d attach_to h (insert_data H new id made_node.0) made_node.1 id)
                    is node-IsBuilt)
            | inr old ↦
                IsBuilt-mono H d attach_to h new (insert_data H new id made_node.0) g made_node.1 k
                  q (grown-made.same q (built-alive k q old)) more_found (b.built k q old)
          ];
          distinct = λ j k q at_j at_k. elim (at_node j q at_j) [
            | inl (key_j, is_j) ↦ elim (at_node k q at_k) [
              | inl (key_k, is_k) ↦ sym key_j ∙ key_k
              | inr old_k ↦ absurd (old-distinct k q is_j old_k)
            ]
            | inr old_j ↦ elim (at_node k q at_k) [
              | inl (key_k, is_k) ↦ absurd (old-distinct j q is_k old_j)
              | inr old_k ↦ b.distinct j k q old_j old_k
            ]
          ];
        }

      -- `build` builds it.
      pub build-IsBuilding :
          (out : List (H.RelRcHash × Ptr) × Heap N E)
          → build H d attach_to id new g ≡ some out
          → IsBuilding H d attach_to roots h out.0 out.1
            × ((p : Ptr) × (out.0 ≡ insert_data H new id p))
      unfolding build Option.bind
      build-IsBuilding out returned = elim (Option-cases (find_data H d.all_data id)) [
        | inl gone ↦ absurd (ground arith)
        | inr (x, listed) ↦ elim (Option-cases (find_parents H new attach_to x.incoming g)) [
          | inl gone ↦ absurd (ground arith)
          | inr ((parents, g'), e) ↦
              let f =
                find_parents-Found H d attach_to new (values H new ++ roots) x.incoming g
                  (parents, g') b.counts (find_relrc-owned H d attach_to new roots given) e in
              let is : (
                insert_data H new id (with_parents x.value parents g').0,
                (with_parents x.value parents g').1,
              )
                  ≡ out =
                cc (rw (listed, e) at returned) in
              subst
                (λ (o : List (H.RelRcHash × Ptr) × Heap N E).
                  IsBuilding H d attach_to roots h o.0 o.1
                  × ((p : Ptr) × (o.0 ≡ insert_data H new id p)))
                is (insert_data-IsBuilding x listed parents g' f, (_, refl))
        ]
      ]
