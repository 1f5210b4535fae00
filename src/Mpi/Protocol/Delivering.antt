-- ===== src/Mpi/Protocol/Delivering.antt =====
-- A transfer from memory: `Detached::new` of src/detached.rs with the two processes of
-- src/detached/mpi.rs.
use relrc.Prelude.{
  ℕ, ◌+◌, ◌*◌, ◌<◌, ◌≤◌, ◌≡◌, ◌≢◌, ◌⊎◌, inl, inr, ◌∙◌, subst, some, List, [], true, All, All-map,
  length,
}
use relrc.Object.{Ptr, Heap, strong_count}
use relrc.Counts.{IsCounted}
use relrc.Mpi.Message.{Hashes}
use relrc.Detached.{Detached, attaches_to}
use relrc.Detached.Detaching.{new}
use relrc.Detached.Detaching.Taking.{IsTaken, IsDetached, new-IsDetached, new-IsWhole}
use relrc.Mpi.Protocol.{Processes, MpiMode, Sender, Receiver, Step, Run}
use relrc.Mpi.Protocol.Parts.{IsWhole}
use relrc.Mpi.Protocol.Starting.{started}
use relrc.Mpi.Protocol.Ending.{transfer-ends}

module _ (H : Hashes) {N E : Type 0} (h : Heap N E) (hash_id : Ptr → H.RelRcHash) (obj : Ptr) where
  -- The sender has returned, and the receiver is at the call of `attach`, with objects of which
  -- `attaches_to` holds, each as it is in the sender's memory.
  pub record IsDelivered (attach_to : List (H.RelRcHash × Ptr)) (t : Processes H N E) : Type 0 where
    pub object : Detached H N E
    pub sender : t.sender ≡ Sender.finished
    pub receiver : t.receiver ≡ Receiver.attaching object
    pub current : object.current ≡ hash_id obj
    pub attaches : attaches_to H object attach_to ≡ true
    pub down : t.down ≡ []
    pub up : t.up ≡ []
    pub taken : All (λ e. IsTaken H h hash_id e.0 e.1) object.all_data

  whole_of :
      {roots : List Ptr} (d : Detached H N E)
      → IsCounted roots h
      → 0 < strong_count h obj
      → ((p : Ptr) → H.to_usize (hash_id p) ≢ 0)
      → new H h hash_id obj [] ≡ some d
      → IsWhole d × IsDetached H h hash_id obj [] d
  whole_of d c alive not_zero detached =
      let (a, ea, whole) = new-IsWhole H h hash_id obj c alive not_zero in
      let (b, eb, taken) = new-IsDetached H h hash_id obj [] c alive in
      let same_a : a ≡ d = cc in
      let same_b : b ≡ d = cc in
      (
        subst (λ (x : Detached H N E). IsWhole x) same_a whole,
        subst (λ (x : Detached H N E). IsDetached H h hash_id obj [] x) same_b taken,
      )

  -- The transfer of a node that is alive, detached from nothing in memory where counts are right and no
  -- node has the hash 0: a process can go on until the receiver is at the call of `attach`.
  pub transfer-delivers :
      {roots : List Ptr} (d : Detached H N E) (attach_to : List (H.RelRcHash × Ptr))
      (sending receiving : MpiMode) (n : ℕ) (t : Processes H N E)
      → IsCounted roots h
      → 0 < strong_count h obj
      → ((p : Ptr) → H.to_usize (hash_id p) ≢ 0)
      → new H h hash_id obj [] ≡ some d
      → sending ≢ MpiMode.asynchronous
      → Run d attach_to (started sending receiving) n t
      → (n ≤ 2 + 3 * length d.all_data)
        × (IsDelivered attach_to t ⊎ ((u : Processes H N E) × Step d attach_to t u))
  transfer-delivers d attach_to sending receiving n t c alive not_zero detached supported run =
      let (whole, taken) = whole_of d c alive not_zero detached in
      let (bound, end) = transfer-ends d attach_to sending receiving n t whole supported run in
      (
        bound,
        elim end [
          | inr next ↦ inr next
          | inl over ↦ inl (record {
            object = over.object;
            sender = over.sender;
            receiver = over.receiver;
            current = over.part.same ∙ taken.current;
            attaches = over.attaches;
            down = over.down;
            up = over.up;
            taken =
                All-map over.object.all_data (λ e found. taken.taken e.0 e.1 found)
                  over.part.entries;
          })
        ],
      )
