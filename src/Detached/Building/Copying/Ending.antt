-- ===== src/Detached/Building/Copying/Ending.antt =====
-- What `attach` of src/detached.rs returns.
use mathlib.Core.Option
use mathlib.Core.List.{Memᴰ}
use relrc.Prelude.{
  ℕ, ◌+◌, ◌*◌, ◌<◌, ◌≤◌, ◌≡◌, ◌≢◌, inl, inr, refl, sym, ◌∙◌, subst, true, false, not, none, some,
  List, [], ◌∷◌, ◌++◌, map, arith, All, All-map, ◌==◌, count, count-append, length, Bool-cases,
  Option-cases,
}
use relrc.SlotMap.{SlotMaps}
use relrc.Object.{Ptr, Heap, strong_count}
use relrc.World.{World}
use relrc.Drop.{drop, each}
use relrc.Counts.{IsCounted}
use relrc.Counts.Update.{IsCounted-count}
use relrc.Counts.Dropping.{each-drop-IsCounted}
use relrc.Counts.Frame.{Shrinks-each, drop-Shrinks}
use relrc.Program.Later.{made, each-drop-Later}
use relrc.Mpi.Message.{Hashes}
use relrc.Mpi.Protocol.{find_data, insert_data}
use relrc.Mpi.Protocol.Asking.{
  find_data-insert_data, find_data-contains_key, contains_key-find_data,
}
use relrc.Serialization.Restoring.Heaps.{Grows, Grows-refl, lt_of_alive}
use relrc.Detached.{Detached, contains_key, all_data_parents}
use relrc.Detached.Visiting.Once.{post_order_for_each-once}
use relrc.Detached.Building.{
  collect_handles, parents_in, build, build_all, build_order, take_current, others, attach,
}
use relrc.Detached.Building.Handles.{values, find_data-owned, values-others, collect_handles-owned}
use relrc.Detached.Building.Copying.{IsBuilt, IsBuilding, IsBuilt-mono}
use relrc.Detached.Building.Ordered.{IsOrdered, build_all-IsOrdered}
use relrc.Detached.Building.Attached.{build_order-ends, build_all-found}
use relrc.Detached.Building.Copying.Inserting.{build-IsBuilding}

module _ (H : Hashes) {N E : Type 0} (d : Detached H N E)
    (attach_to : List (H.RelRcHash × Ptr)) where
  missing_still :
      (id : H.RelRcHash) (p : Ptr) (new : List (H.RelRcHash × Ptr)) (ids : List H.RelRcHash)
      → count (H.to_usize id) (map H.to_usize ids) ≡ 0
      → All (λ k. find_data H new k ≡ none) ids
      → All (λ k. find_data H (insert_data H new id p) k ≡ none) ids
  missing_still id p new [] once missing = tt
  missing_still id p new (k ∷ ids) once (gone, missing) = (
    ground (arith, find_data-insert_data H new id p k),
    missing_still id p new ids (omega arith) missing,
  )

  module _ (roots : List Ptr) (h : Heap N E)
      (given : (k : H.RelRcHash) (p : Ptr)
        → find_data H attach_to k ≡ some p
        → 0 < count p roots) where
    build_all-IsBuilding :
        (ids : List H.RelRcHash) (new : List (H.RelRcHash × Ptr)) (g : Heap N E)
        (out : List (H.RelRcHash × Ptr) × Heap N E)
        → IsBuilding H d attach_to roots h new g
        → ((n : ℕ) → count n (map H.to_usize ids) ≤ 1)
        → All (λ k. find_data H new k ≡ none) ids
        → All (λ k. find_data H attach_to k ≡ none) ids
        → build_all H d attach_to ids new g ≡ some out
        → IsBuilding H d attach_to roots h out.0 out.1
    unfolding build_all Option.bind
    build_all-IsBuilding [] new g out b once missing apart returned =
        let is : (new, g) ≡ out = cc in
        subst
          (λ (o : List (H.RelRcHash × Ptr) × Heap N E). IsBuilding H d attach_to roots h o.0 o.1) is
          b
    build_all-IsBuilding (id ∷ ids) new g out b once (gone, missing) (other, apart) returned =
        elim (Option-cases (build H d attach_to id new g)) [
          | inl panic ↦ absurd (ground arith)
          | inr ((new', g'), e) ↦
              let (b', (p, is)) =
                build-IsBuilding H d attach_to roots h given id new g b gone other (new', g') e in
              build_all-IsBuilding ids new' g' out b' (λ n. omega (arith, once n))
                (rw is (missing_still id p new ids (ground (arith, once (H.to_usize id))) missing))
                apart (rw e at returned)
        ]

-- What `attach` made of memory `h`: `node` is a new copy of the object, and so is each node that was
-- built on the way and is alive; copies of two objects are two nodes, other nodes that are alive are as
-- they were, and the program owns `node` and its other handles.
pub record IsAttached (H : Hashes) {N E : Type 0} (d : Detached H N E)
    (attach_to : List (H.RelRcHash × Ptr)) (rest : List Ptr) (h : Heap N E) (node : Ptr)
    (g : Heap N E) : Type 0 where
  pub new : List (H.RelRcHash × Ptr)
  pub at : find_data H new d.current ≡ some node
  pub counts : IsCounted (node ∷ rest) g
  pub alive : 0 < strong_count g node
  pub copies :
      (k : H.RelRcHash) (q : Ptr)
      → find_data H new k ≡ some q
      → 0 < strong_count g q
      → IsBuilt H d attach_to h new g k q
  pub distinct :
      (j k : H.RelRcHash) (q : Ptr)
      → find_data H new j ≡ some q
      → find_data H new k ≡ some q
      → j ≡ k
  pub kept : (q : Ptr) → 0 < strong_count h q → 0 < strong_count g q → made g q ≡ made h q

module _ (H : Hashes) {N E : Type 0} (d : Detached H N E) (attach_to : List (H.RelRcHash × Ptr))
    (h : Heap N E) (node : Ptr) where
  -- Once all is built, `remove` hands out the node.
  take_current-IsAttached :
      (roots : List Ptr) (new : List (H.RelRcHash × Ptr)) (g : Heap N E)
      → IsBuilding H d attach_to roots h new g
      → find_data H new d.current ≡ some node
      → IsAttached H d attach_to (others H d.current new ++ roots) h node g
  take_current-IsAttached roots new g b at =
      let left = others H d.current new in
      record {
        new = new;
        at = at;
        counts =
            IsCounted-count
              (λ q. omega (
                arith,
                values-others H new d.current node q at,
                count-append q (values H new) roots,
                count-append q left roots,
              ))
              b.counts;
        alive = omega (
          arith,
          b.counts.counted node,
          find_data-owned H new d.current node at,
          count-append node (values H new) roots,
        );
        copies = λ k q found live. b.built k q found;
        distinct = b.distinct;
        kept = λ q old live. b.grown.same q old;
      }

-- What was made of memory that had grown was made of it as it was before.
pub IsAttached-Grows :
    (H : Hashes) {N E : Type 0} (d : Detached H N E) (attach_to : List (H.RelRcHash × Ptr))
    (rest : List Ptr) (h h' : Heap N E) (node : Ptr) (g : Heap N E)
    → Grows h h'
    → IsAttached H d attach_to rest h' node g
    → IsAttached H d attach_to rest h node g
IsAttached-Grows H d attach_to rest h h' node g grown a = record {
  new = a.new;
  at = a.at;
  counts = a.counts;
  alive = a.alive;
  copies = λ k q found live.
      let b = a.copies k q found live in
      record {
        inner = b.inner;
        listed = b.listed;
        fresh = elim (Bool-cases (strong_count h q == 0)) [
          | inl dead ↦ ground arith
          | inr more ↦ let alive = grown.alive q (ground arith) in absurd (omega (arith, b.fresh))
        ];
        edges = b.edges;
        made_as = b.made_as;
        joined = b.joined;
      };
  distinct = a.distinct;
  kept = λ q old live. a.kept q (grown.alive q old) live ∙ grown.same q old;
}

module _ (H : Hashes) {S : SlotMaps} {N E : Type 0} (d : Detached H N E)
    (attach_to : List (H.RelRcHash × Ptr)) (rest : List Ptr) (h : Heap N E) (node : Ptr) where
  -- Handles that are dropped afterwards leave it as it is.
  pub each-drop-IsAttached :
      (ps : List Ptr) (w : World S N E)
      → IsAttached H d attach_to (ps ++ rest) h node w.heap
      → IsAttached H d attach_to rest h node (each drop ps w).heap
  each-drop-IsAttached ps w a =
      let moved : IsCounted (ps ++ (node ∷ rest)) w.heap =
        IsCounted-count
          (λ q. omega (arith, count-append q ps (node ∷ rest), count-append q ps rest)) a.counts in
      let counts = each-drop-IsCounted ps w (node ∷ rest) moved in
      let own : 0 < count node (node ∷ rest) = ground arith in
      let shrunk = Shrinks-each drop drop-Shrinks ps w in
      let later = each-drop-Later ps w in
      let same = λ (q : Ptr) (live : 0 < strong_count (each drop ps w).heap q).
        later.same q (lt_of_alive w.heap q (omega (arith, shrunk.fewer q))) live in
      record {
        new = a.new;
        at = a.at;
        counts = counts;
        alive = omega (arith, counts.counted node);
        copies = λ k q found live.
            IsBuilt-mono H d attach_to h a.new a.new w.heap _ k q (same q live) (λ j p f. f)
              (a.copies k q found (omega (arith, shrunk.fewer q)));
        distinct = a.distinct;
        kept = λ q old live. same q live ∙ a.kept q old (omega (arith, shrunk.fewer q));
      }

not_given :
    (H : Hashes) (attach_to : List (H.RelRcHash × Ptr)) (u : H.RelRcHash)
    → not (contains_key H attach_to u) ≡ true
    → find_data H attach_to u ≡ none
not_given H attach_to u wanted = elim (Option-cases (find_data H attach_to u)) [
  | inl gone ↦ gone
  | inr (p, found) ↦ absurd (ground (arith, contains_key-find_data H attach_to u p found))
]

-- Where counts are right, the object is not there already and is no parent of a detached object, and
-- in the order in which `post_order_for_each` calls, each object is one that was detached and its parents
-- come before it or are in `attach_to`, `attach` returns a new copy of the object: the value and the edges
-- in order are those detached, each edge comes from the copy of the parent or from the parent that is in
-- `attach_to`, copies of two objects are two nodes, and counts are right again.
pub attach-IsAttached :
    (H : Hashes) {S : SlotMaps} {N E : Type 0} (hash_id : Ptr → H.RelRcHash) (d : Detached H N E)
    (handles rest : List Ptr) (w : World S N E) (ids : List H.RelRcHash)
    → IsCounted (handles ++ rest) w.heap
    → find_data H (collect_handles H hash_id handles []) d.current ≡ none
    → ((k : H.RelRcHash)
        → All (λ u. H.to_usize u ≢ H.to_usize d.current) (parents_in H (find_data H d.all_data k)))
    → build_order H d (collect_handles H hash_id handles []) ≡ some ids
    → IsOrdered H d (collect_handles H hash_id handles []) (λ k. false) ids
    → (node : Ptr) × (w' : World S N E) × (attach H hash_id d handles w ≡ some (node, w'))
      × IsAttached H d (collect_handles H hash_id handles []) rest w.heap node w'.heap
unfolding attach take_current Option.bind build_order
attach-IsAttached H {S} {N} {E} hash_id d handles rest w ids c missing never order ordered =
    let attach_to = collect_handles H hash_id handles [] in
    let (once, apart) =
      post_order_for_each-once H.to_usize (λ id. parents_in H (find_data H d.all_data id))
        (λ id. not (contains_key H attach_to id)) (λ k. find_data H attach_to k ≡ none)
        (not_given H attach_to) (3 + 2 * length (all_data_parents H d.all_data)) d.current ids
        missing never order in
    let ((new, g), e) = build_all-IsOrdered H d attach_to ids [] w.heap ordered in
    let (kept, found) = build_all-found H d attach_to ids [] w.heap (new, g) e in
    let (again, order', own) = build_order-ends H d attach_to in
    let same : ids ≡ again = cc in
    let (node, at) =
      find_data-contains_key H new d.current
        (found d.current (subst (λ ks. Memᴰ d.current ks) (sym same) own)) in
    let start : IsBuilding H d attach_to (handles ++ rest) w.heap [] w.heap = record {
      counts = c;
      grown = Grows-refl w.heap;
      built = λ k q none_found. absurd cc;
      distinct = λ j k q none_found _. absurd cc;
    } in
    let b =
      build_all-IsBuilding H d attach_to (handles ++ rest) w.heap
        (λ k p given.
          omega
            (arith, collect_handles-owned H hash_id handles k p given, count-append p handles rest))
        ids [] w.heap (new, g) start once (All-map ids (λ k z. refl) apart) apart e in
    let w1 : World S N E = record w { heap = g } in
    let all = take_current-IsAttached H d attach_to w.heap node (handles ++ rest) new g b at in
    let left =
      each-drop-IsAttached H d attach_to (handles ++ rest) w.heap node (others H d.current new) w1
        all in
    (
      node,
      each drop handles (each drop (others H d.current new) w1),
      rw (attach, missing, order, e, at) refl,
      each-drop-IsAttached H d attach_to rest w.heap node handles _ left,
    )
