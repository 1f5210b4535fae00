-- ===== src/Detached/Detaching/Taking.antt =====
-- What `Detached::new` of src/detached.rs takes out of memory.
use mathlib.Core.Option
use mathlib.Core.List.{Memᴰ}
use mathlib.Core.List.Memᴰ
use relrc.Prelude.{
  suc, ◌<◌, ◌≡◌, ◌≢◌, inl, inr, refl, sym, ap, subst, true, false, ◌||◌, some, List, [], ◌∷◌, map,
  arith, ◌==◌, ==_iff, All, All-map, count, Bool-cases, Option-cases, get_elem?,
}
use relrc.Object.{Ptr, InnerData, InnerEdgeData, Heap, sources, strong_count, deref}
use relrc.Drop.{parents_of}
use relrc.Counts.{IsCounted}
use relrc.Mpi.Message.{Hashes}
use relrc.Mpi.Transfer.{DetachedInnerData}
use relrc.Mpi.Protocol.{find_data}
use relrc.Mpi.Protocol.Asking.{find_data-contains_key}
use relrc.Mpi.Protocol.Parts.{IsWhole}
use relrc.Detached.{Detached, has, hash_eq, contains_key}
use relrc.Detached.Attaching.{hash_eq_sound}
use relrc.Detached.Detaching.{edge_total, ancestors_upto, data_of, detach_all, new}
use relrc.Detached.Detaching.Counting.{edges_left-start}
use relrc.Detached.Detaching.Reaching.{Upto, Upto-has}
use relrc.Detached.Detaching.Finding.{ancestors_loop-Ended}

deref_alive :
    {N E : Type 0} (h : Heap N E) (p : Ptr)
    → 0 < strong_count h p
    → (inner : InnerData N E) × (deref h p ≡ some inner)
deref_alive h p alive = elim (Option-cases (get_elem? h p)) [
  | inl e ↦ absurd (ground arith)
  | inr (b, e) ↦
      let not_dead : (b.strong == 0) ≡ false = ground arith in (b.inner, rw (e, not_dead) refl)
]

module _ (H : Hashes) {N E : Type 0} (h : Heap N E) (hash_id : Ptr → H.RelRcHash) where
  -- What was taken out of memory of the node with hash `k`
  pub record IsTaken (k : H.RelRcHash) (x : DetachedInnerData H N E) : Type 0 where
    pub node : Ptr
    pub inner : InnerData N E
    pub hash : hash_id node ≡ k
    pub alive : deref h node ≡ some inner
    pub same : x ≡ data_of H h hash_id inner

  pub record IsDetached (obj : Ptr) (detach_from : List H.RelRcHash) (d : Detached H N E)
      : Type 0 where
    pub current : d.current ≡ hash_id obj
    pub own : (contains_key H d.all_data d.current || has H detach_from d.current) ≡ true
    pub taken :
        (k : H.RelRcHash) (x : DetachedInnerData H N E)
        → find_data H d.all_data k ≡ some x
        → IsTaken k x
    pub upto :
        (k : H.RelRcHash) (x : DetachedInnerData H N E) (found : find_data H d.all_data k ≡ some x)
        → Upto H h hash_id detach_from obj (taken k x found).node
    pub apart : (k : H.RelRcHash) → contains_key H d.all_data k ≡ true → has H detach_from k ≡ false
    pub parents :
        (k : H.RelRcHash) (x : DetachedInnerData H N E)
        → find_data H d.all_data k ≡ some x
        → All (λ e. (contains_key H d.all_data e.0 || has H detach_from e.0) ≡ true) x.incoming

  record Taken (m : List (H.RelRcHash × Ptr)) : Type 0 where
    all_data : List (H.RelRcHash × DetachedInnerData H N E)
    returned : detach_all H h hash_id m ≡ some all_data
    keys : (k : H.RelRcHash) → contains_key H all_data k ≡ contains_key H m k
    entries :
        (k : H.RelRcHash) (x : DetachedInnerData H N E)
        → find_data H all_data k ≡ some x
        → (p : Ptr) × (inner : InnerData N E) × Memᴰ (k, p) m
          × (deref h p ≡ some inner)
          × (x ≡ data_of H h hash_id inner)

  detach_all-Taken :
      (m : List (H.RelRcHash × Ptr))
      → ((k : H.RelRcHash) (p : Ptr) → Memᴰ (k, p) m → 0 < strong_count h p)
      → Taken m
  unfolding detach_all Option.bind
  detach_all-Taken [] alive = record {
    all_data = [];
    returned = refl;
    keys = λ k. refl;
    entries = λ k x found. cc;
  }
  detach_all-Taken ((j, q) ∷ m) alive =
      let (inner, there) = deref_alive h q (alive j q (Memᴰ.head refl)) in
      let t = detach_all-Taken m (λ k p later. alive k p (Memᴰ.tail later)) in
      record {
        all_data = (j, data_of H h hash_id inner) ∷ t.all_data;
        returned = rw (there, t.returned) refl;
        keys = λ k. rw (t.keys k) refl;
        entries = λ k x found. elim (Bool-cases (hash_eq H j k)) [
          | inl same ↦ (
            q,
            inner,
            Memᴰ.head (ap (λ i. (i, q)) (sym (hash_eq_sound H j k same))),
            there,
            ground (arith, rw same at found),
          )
          | inr apart ↦
              let (p, inner', later, at, is) = t.entries k x (rw apart at found) in
              (p, inner', Memᴰ.tail later, at, is)
        ];
      }

  All-edges :
      (P : H.RelRcHash → Type 0) (es : List (InnerEdgeData E))
      → ((q : Ptr) → 0 < count q (sources es) → P (hash_id q))
      → All
          (λ (e : H.RelRcHash × E). P e.0)
          (map (λ (e : InnerEdgeData E). (hash_id e.source, e.value)) es)
  All-edges P [] holds = tt
  All-edges P (e ∷ es) holds =
      (holds e.source (ground arith), All-edges P es (λ q there. holds q (ground arith)))

-- Where counts are right and the object is alive, `Detached::new` returns: its loop ends. It holds the
-- object, unless the object's hash is in `detach_from`, and no data under a hash in `detach_from`. What it
-- holds was taken of nodes that are reached from the object by edges to parents, through no node with
-- its hash in `detach_from`: each stands under its hash, with its value and edges as in memory. Each
-- parent that it lacks has its hash in `detach_from`.
pub new-IsDetached :
    (H : Hashes) {N E : Type 0} (h : Heap N E) (hash_id : Ptr → H.RelRcHash) {roots : List Ptr}
    (obj : Ptr) (detach_from : List H.RelRcHash)
    → IsCounted roots h
    → 0 < strong_count h obj
    → (d : Detached H N E) × (new H h hash_id obj detach_from ≡ some d)
      × IsDetached H h hash_id obj detach_from d
unfolding new ancestors_upto Option.bind
new-IsDetached H {N} {E} h hash_id obj detach_from c alive =
    let r =
      ancestors_loop-Ended H h hash_id detach_from obj c (suc (suc (edge_total h))) (obj ∷ []) []
        (λ q there.
          let same : q ≡ obj = ground (arith, ==_iff q obj) in
          subst (λ a. 0 < strong_count h a) (sym same) alive)
        (λ q there. inl (ground (arith, ==_iff q obj))) (λ k p there. absurd (Memᴰ.not-nil there))
        (omega (arith, edges_left-start H hash_id 0 h)) in
    let t = detach_all-Taken H h hash_id r.all_nodes (λ k p there. (r.fine k p there).alive) in
    (
      record { current = hash_id obj; all_data = t.all_data },
      rw (r.returned, t.returned) refl,
      record {
        current = refl;
        own = rw (t.keys (hash_id obj)) (r.covered obj (ground arith));
        taken = λ k x found.
            let (p, inner, there, at, is) = t.entries k x found in
            record {
              node = p;
              inner = inner;
              hash = (r.fine k p there).hash;
              alive = at;
              same = is;
            };
        upto = λ k x found.
            let (p, inner, there, at, is) = t.entries k x found in (r.fine k p there).upto;
        apart = λ k there.
            let (x, found) = find_data-contains_key H t.all_data k there in
            let (p, inner, listed, at, is) = t.entries k x found in
            let f = r.fine k p listed in
            subst (λ i. has H detach_from i ≡ false) f.hash
              (Upto-has H h hash_id detach_from obj f.upto);
        parents = λ k x found.
            let (p, inner, there, at, is) = t.entries k x found in
            subst
              (λ (y : DetachedInnerData H N E).
                All
                  (λ (e : H.RelRcHash × E).
                    (contains_key H t.all_data e.0 || has H detach_from e.0) ≡ true)
                  y.incoming)
              (sym is)
              (All-edges H h hash_id
                (λ k. (contains_key H t.all_data k || has H detach_from k) ≡ true) inner.incoming
                (λ q edge.
                  let listed = subst (λ o. 0 < count q (parents_of o)) (sym at) edge in
                  rw (t.keys (hash_id q)) (elim ((r.fine k p there).parents q listed) [
                    | inl known ↦ known
                    | inr queued ↦ absurd (omega arith)
                  ])));
      },
    )

-- An object that is detached from nothing, as `send_relrc` detaches it, is sent with all its
-- ancestors.
pub new-IsWhole :
    (H : Hashes) {N E : Type 0} (h : Heap N E) (hash_id : Ptr → H.RelRcHash) {roots : List Ptr}
    (obj : Ptr)
    → IsCounted roots h
    → 0 < strong_count h obj
    → ((p : Ptr) → H.to_usize (hash_id p) ≢ 0)
    → (d : Detached H N E) × (new H h hash_id obj [] ≡ some d) × IsWhole d
new-IsWhole H {N} {E} h hash_id obj c alive not_zero =
    let (d, returned, whole) = new-IsDetached H h hash_id obj [] c alive in
    (
      d,
      returned,
      record {
        own = ground (arith, whole.own);
        parents =
            λ k x found. All-map x.incoming (λ e known. ground arith) (whole.parents k x found);
        not_zero = λ k there.
            let (x, found) = find_data-contains_key H d.all_data k there in
            let t = whole.taken k x found in subst (λ i. H.to_usize i ≢ 0) t.hash (not_zero t.node);
      },
    )
