-- ===== src/Mpi/Protocol/Attaching.antt =====
-- The end of `recv_relrc` of src/detached/mpi.rs: the objects that were received are attached. The
-- handles in the map `attach_to` are cloned for `attach`; the map is dropped at the end, and so is a
-- handle that another one with its hash pushed out of the map.
use mathlib.Core.Option
use relrc.Prelude.{
  ℕ, ◌<◌, ◌≡◌, ◌≢◌, inl, inr, refl, ap, sym, ◌∙◌, subst, Option, none, some, List, [], ◌∷◌, ◌++◌,
  map, arith, All, Bool-cases, false, count, count-append,
}
use relrc.SlotMap.{SlotMaps}
use relrc.Object.{Ptr, InnerData, InnerEdgeData, Heap, deref, strong_count, clone}
use relrc.World.{World}
use relrc.Drop.{drop, each}
use relrc.Counts.{IsCounted}
use relrc.Counts.Update.{IsCounted-count}
use relrc.Counts.Creating.{clone-IsCounted}
use relrc.Program.Later.{made}
use relrc.Mpi.Message.{Hashes}
use relrc.Mpi.Protocol.{
  find_data, Processes, MpiMode, Sender, Receiver, Step, Run, sender_step, receiver_step,
}
use relrc.Mpi.Transfer.{DetachedInnerData}
use relrc.Mpi.Protocol.Starting.{started}
use relrc.Mpi.Protocol.Delivering.{transfer-delivers}
use relrc.Detached.{Detached, hash_eq}
use relrc.Detached.Attaching.{hash_eq_sound}
use relrc.Serialization.Restoring.Heaps.{Grows, Grows-refl, Grows-trans, clone-Grows}
use relrc.Detached.Detaching.{new}
use relrc.Detached.Detaching.Taking.{IsTaken}
use relrc.Serialization.Restoring.Restored.{SameEdges}
use relrc.Detached.Building.{collect_handles, find_relrc, parents_in, build_order, attach}
use relrc.Detached.Building.Ordered.{IsOrdered}
use relrc.Detached.Building.Handles.{values, values-collect_handles}
use relrc.Detached.Building.Copying.{IsBuilt}
use relrc.Detached.Building.Copying.Ending.{
  IsAttached, IsAttached-Grows, each-drop-IsAttached, attach-IsAttached,
}

-- `attach_to.values().cloned()`
unfoldable pub clone_all : {N E : Type 0} → List Ptr → Heap N E → Heap N E
unfolding clone
clone_all [] h = h
clone_all (p ∷ ps) h = clone_all ps (clone p h)

module _ (H : Hashes) {S : SlotMaps} {N E : Type 0} where
  -- `recv_relrc` after `source.send(&MPIMessage::Done)`
  unfoldable pub attach_received :
      (Ptr → H.RelRcHash) → List Ptr → Detached H N E → World S N E → Option (Ptr × World S N E)
  unfolding clone_all attach drop each
  attach_received hash_id handles detached w =
      let kept = values H (collect_handles H hash_id handles []) in
      Option.map (λ (node, w'). (node, each drop handles w'))
        (attach H hash_id detached kept (record w { heap = clone_all kept w.heap }))

-- Node `q` in memory `g` is a copy of a node that was alive in memory `h` under the hash `k`: it has the
-- value and the edges in order, and each edge comes from the node that `find` finds under the hash of
-- the parent.
pub record IsMoved (H : Hashes) {N E : Type 0} (h : Heap N E) (hash_id : Ptr → H.RelRcHash)
    (find : H.RelRcHash → Option Ptr) (g : Heap N E) (k : H.RelRcHash) (q : Ptr) : Type 0 where
  pub original : Ptr
  pub inner : InnerData N E
  pub hash : hash_id original ≡ k
  pub was : deref h original ≡ some inner
  pub edges : List (InnerEdgeData E)
  pub is : made g q ≡ some (inner.value, edges)
  pub joined : SameEdges find q (map (λ e. (hash_id e.source, e.value)) inner.incoming) edges

All-find_data :
    (H : Hashes) {A : Type 0} (P : H.RelRcHash → A → Type 0) (entries : List (H.RelRcHash × A))
    (k : H.RelRcHash) (x : A)
    → All (λ e. P e.0 e.1) entries
    → find_data H entries k ≡ some x
    → P k x
All-find_data H P [] k x all found = absurd cc
All-find_data H P ((a, y) ∷ entries) k x (own, all) found = elim (Bool-cases (hash_eq H a k)) [
  | inl same ↦
      let is : some y ≡ some x = rw same at found in
      let value : y ≡ x = cc in
      subst (P k) value (subst (λ j. P j y) (hash_eq_sound H a k same) own)
  | inr apart ↦ All-find_data H P entries k x all (rw apart at found)
]

module _ {N E : Type 0} where
  clone_all-IsCounted :
      (ps roots : List Ptr) (h : Heap N E)
      → ((p : Ptr) → 0 < count p ps → 0 < count p roots)
      → IsCounted roots h
      → IsCounted (ps ++ roots) (clone_all ps h)
  unfolding clone_all
  clone_all-IsCounted [] roots h own c = c
  clone_all-IsCounted (p ∷ ps) roots h own c =
      let here : 0 < count p roots = own p (ground arith) in
      let more = clone-IsCounted c p (omega (arith, c.counted p)) in
      IsCounted-count (λ q. omega (arith, count-append q ps (p ∷ roots), count-append q ps roots))
        (clone_all-IsCounted ps (p ∷ roots) (clone p h)
          (λ q there. let at = own q (omega arith) in omega arith) more)

  clone_all-Grows : (ps : List Ptr) (h : Heap N E) → Grows h (clone_all ps h)
  unfolding clone_all
  clone_all-Grows [] h = Grows-refl h
  clone_all-Grows (p ∷ ps) h = Grows-trans (clone-Grows p h) (clone_all-Grows ps (clone p h))

-- Where `attach` can build what was received, the receiver gets a copy, and counts are right.
attach_received-IsAttached :
    (H : Hashes) {S : SlotMaps} {N E : Type 0} (hash_id : Ptr → H.RelRcHash) (d : Detached H N E)
    (handles rest : List Ptr) (w : World S N E) (ids : List H.RelRcHash)
    → let kept = values H (collect_handles H hash_id handles []) in
      let attach_to = collect_handles H hash_id kept [] in
      IsCounted (handles ++ rest) w.heap
      → find_data H attach_to d.current ≡ none
      → ((k : H.RelRcHash)
          → All
              (λ u. H.to_usize u ≢ H.to_usize d.current)
              (parents_in H (find_data H d.all_data k)))
      → build_order H d attach_to ≡ some ids
      → IsOrdered H d attach_to (λ k. false) ids
      → (node : Ptr) × (w' : World S N E) × (attach_received H hash_id handles d w
          ≡ some (node, w'))
        × IsAttached H d attach_to rest w.heap node w'.heap
unfolding attach_received
attach_received-IsAttached H {S} {N} {E} hash_id d handles rest w ids c missing never order
      ordered =
    let kept = values H (collect_handles H hash_id handles []) in
    let w1 : World S N E = record w { heap = clone_all kept w.heap } in
    let own = λ (p : Ptr) (there : 0 < count p kept).
      let given = values-collect_handles H hash_id handles [] p there in
      let more : 0 < count p (handles ++ rest) = omega (arith, count-append p handles rest) in
      more in
    let c1 = clone_all-IsCounted kept (handles ++ rest) w.heap own c in
    let (node, w2, returned, a) =
      attach-IsAttached H {S = S} hash_id d kept (handles ++ rest) w1 ids c1 missing never order
        ordered in
    (
      node,
      each drop handles w2,
      rw returned refl,
      IsAttached-Grows H d (collect_handles H hash_id kept []) rest w.heap w1.heap node _
          (clone_all-Grows kept w.heap)
          (each-drop-IsAttached H d (collect_handles H hash_id kept []) rest w1.heap node handles w2
            a),
    )

module _ {H : Hashes} {N E : Type 0} (d : Detached H N E)
    (attach_to : List (H.RelRcHash × Ptr)) where
  -- Processes that have ended have no step.
  both_ended :
      {t u : Processes H N E} {object : Detached H N E}
      → t.sender ≡ Sender.finished
      → t.receiver ≡ Receiver.attaching object
      → Step d attach_to t u
      → ⊥
  unfolding sender_step receiver_step
  both_ended finished complete (Step.sender_goes e) = cc (rw (sender_step, finished) at e)
  both_ended finished complete (Step.receiver_goes e) = cc (rw (receiver_step, complete) at e)

module _ (H : Hashes) {N E : Type 0} (h : Heap N E) (hash_id : Ptr → H.RelRcHash) where
  IsBuilt-IsMoved :
      (object : Detached H N E) (attach_to : List (H.RelRcHash × Ptr)) (old g : Heap N E)
      (new : List (H.RelRcHash × Ptr)) (k : H.RelRcHash) (q : Ptr)
      → All (λ e. IsTaken H h hash_id e.0 e.1) object.all_data
      → IsBuilt H object attach_to old new g k q
      → IsMoved H h hash_id (find_relrc H new attach_to) g k q
  IsBuilt-IsMoved object attach_to old g new k q taken b =
      let t = All-find_data H (IsTaken H h hash_id) object.all_data k b.inner taken b.listed in
      record {
        original = t.node;
        inner = t.inner;
        hash = t.hash;
        was = t.alive;
        edges = b.edges;
        is = b.made_as ∙ ap (λ (x : DetachedInnerData H N E). some (x.value, b.edges)) t.same;
        joined =
            subst
              (λ (x : DetachedInnerData H N E).
                SameEdges (find_relrc H new attach_to) q x.incoming b.edges)
              t.same b.joined;
      }

-- What `recv_relrc` returns: a new copy of the node that was sent, and of each of its ancestors that was
-- built for it.
pub record IsReceived (H : Hashes) {N E : Type 0} (h : Heap N E) (hash_id : Ptr → H.RelRcHash)
    (obj : Ptr) (object : Detached H N E) (attach_to : List (H.RelRcHash × Ptr)) (rest : List Ptr)
    (old : Heap N E) (node : Ptr) (g : Heap N E) : Type 0 where
  pub attached : IsAttached H object attach_to rest old node g
  pub sent : object.current ≡ hash_id obj
  pub moved :
      (k : H.RelRcHash) (q : Ptr)
      → find_data H attached.new k ≡ some q
      → 0 < strong_count g q
      → IsMoved H h hash_id (find_relrc H attached.new attach_to) g k q

-- Where a transfer from memory in which counts are right and no node has the hash 0 has ended, and the
-- receiver can build what it has in the order in which `post_order_for_each` calls, with no object that has
-- the node as a parent, `recv_relrc` returns a new copy of the node: it and each ancestor that was built
-- for it has the value and the edges, in order, of a node with its hash in the sender's memory, and each
-- edge comes from the copy of the parent or from the handle that the receiver had of it. Counts in the
-- receiver's memory are right again.
pub attach_received-transfer :
    (H : Hashes) {S : SlotMaps} {N E : Type 0} (h : Heap N E) (hash_id : Ptr → H.RelRcHash)
    (obj : Ptr) {roots : List Ptr} (d object : Detached H N E) (sending receiving : MpiMode) (n : ℕ)
    (t : Processes H N E) (hash_id' : Ptr → H.RelRcHash) (handles rest : List Ptr) (w : World S N E)
    (ids : List H.RelRcHash)
    → IsCounted roots h
    → 0 < strong_count h obj
    → ((p : Ptr) → H.to_usize (hash_id p) ≢ 0)
    → new H h hash_id obj [] ≡ some d
    → sending ≢ MpiMode.asynchronous
    → Run d (collect_handles H hash_id' handles []) (started sending receiving) n t
    → t.sender ≡ Sender.finished
    → t.receiver ≡ Receiver.attaching object
    → let kept = values H (collect_handles H hash_id' handles []) in
      let attach_to = collect_handles H hash_id' kept [] in
      IsCounted (handles ++ rest) w.heap
      → find_data H attach_to object.current ≡ none
      → ((k : H.RelRcHash)
          → All
              (λ u. H.to_usize u ≢ H.to_usize object.current)
              (parents_in H (find_data H object.all_data k)))
      → build_order H object attach_to ≡ some ids
      → IsOrdered H object attach_to (λ k. false) ids
      → (node : Ptr) × (w' : World S N E) × (attach_received H hash_id' handles object w
          ≡ some (node, w'))
        × IsReceived H h hash_id obj object attach_to rest w.heap node w'.heap
attach_received-transfer H {S} h hash_id obj d object sending receiving n t hash_id' handles rest w
      ids c alive not_zero detached supported run finished complete c' missing never order ordered =
    let first = collect_handles H hash_id' handles [] in
    let attach_to = collect_handles H hash_id' (values H first) [] in
    let (bound, end) =
      transfer-delivers H h hash_id obj d first sending receiving n t c alive not_zero detached
        supported run in
    let (node, w', returned, a) =
      attach_received-IsAttached H {S = S} hash_id' object handles rest w ids c' missing never order
        ordered in
    elim end [
      | inr (u, next) ↦ absurd (both_ended d first finished complete next)
      | inl over ↦
          let same : over.object ≡ object = cc in
          (
            node,
            w',
            returned,
            record {
              attached = a;
              sent = ap (λ o. o.current) (sym same) ∙ over.current;
              moved = λ k q found live.
                  IsBuilt-IsMoved H h hash_id object attach_to w.heap w'.heap a.new k q
                    (subst (λ o. All (λ e. IsTaken H h hash_id e.0 e.1) o.all_data) same over.taken)
                    (a.copies k q found live);
            },
          )
    ]
