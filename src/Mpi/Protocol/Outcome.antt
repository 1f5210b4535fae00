-- ===== src/Mpi/Protocol/Outcome.antt =====
-- A transfer from memory with the call of `RelRc::attach` at the end of `recv_relrc` (src/detached.rs,
-- src/detached/mpi.rs).
use relrc.Prelude.{
  ℕ, ◌+◌, ◌*◌, ◌<◌, ◌≤◌, ◌≡◌, ◌≢◌, ◌⊎◌, ◌↔◌, inl, inr, refl, none, some, List, [], false, length,
  Option-cases,
}
use relrc.SlotMap.{SlotMaps}
use relrc.Object.{Ptr, Heap, strong_count, clone}
use relrc.World.{World}
use relrc.Drop.{drop, each}
use relrc.Counts.{IsCounted}
use relrc.Mpi.Message.{Hashes}
use relrc.Mpi.Protocol.{find_data, Processes, MpiMode, Step, Run}
use relrc.Mpi.Protocol.Starting.{started}
use relrc.Mpi.Protocol.Delivering.{IsDelivered, transfer-delivers}
use relrc.Mpi.Protocol.Attaching.{attach_received, clone_all}
use relrc.Detached.{Detached}
use relrc.Detached.Detaching.{new}
use relrc.Detached.Building.{collect_handles, build_order, attach}
use relrc.Detached.Building.Handles.{values}
use relrc.Detached.Building.Ordered.{IsOrdered}
use relrc.Detached.Building.Attached.{attach_iff, build_order-ends}

-- The map `attach_to` that `attach` makes of the receiver's handles
abbrev pub attach_map : (H : Hashes) → (Ptr → H.RelRcHash) → List Ptr → List (H.RelRcHash × Ptr)
attach_map H hash_id handles =
    collect_handles H hash_id (values H (collect_handles H hash_id handles [])) []

-- When the call of `attach` for `object` returns; otherwise it panics.
pub record IsDecided (H : Hashes) {S : SlotMaps} {N E : Type 0} (hash_id : Ptr → H.RelRcHash)
    (handles : List Ptr) (object : Detached H N E) (w : World S N E) : Type 0 where
  pub ids : List H.RelRcHash
  pub order : build_order H object (attach_map H hash_id handles) ≡ some ids
  pub returns_iff :
      ((out : Ptr × World S N E) × (attach_received H hash_id handles object w ≡ some out)) ↔ (
        ((p : Ptr) × (find_data H (attach_map H hash_id handles) object.current ≡ some p))
        ⊎ IsOrdered H object (attach_map H hash_id handles) (λ k. false) ids)

attach_received-IsDecided :
    (H : Hashes) {S : SlotMaps} {N E : Type 0} (hash_id : Ptr → H.RelRcHash) (handles : List Ptr)
    (object : Detached H N E) (w : World S N E)
    → IsDecided H hash_id handles object w
unfolding attach_received attach
attach_received-IsDecided H {S} {N} {E} hash_id handles object w =
    let attach_to = attach_map H hash_id handles in
    let kept = values H (collect_handles H hash_id handles []) in
    let w1 : World S N E = record w { heap = clone_all kept w.heap } in
    elim (Option-cases (find_data H attach_to object.current)) [
      | inr (p, there) ↦
          let (ids, order, own) = build_order-ends H object attach_to in
          record {
            ids = ids;
            order = order;
            returns_iff = (
              λ returned. inl (p, there),
              λ may. (
                (p, each drop handles (each drop kept (record w1 { heap = clone p w1.heap }))),
                rw (attach_received, attach, there) refl,
              ),
            );
          }
      | inl missing ↦
          let (ids, order, iff) = attach_iff H {S = S} hash_id object kept w1 missing in
          record {
            ids = ids;
            order = order;
            returns_iff = (
              λ (out, returned). elim (Option-cases (attach H hash_id object kept w1)) [
                | inl panics ↦
                    let none_out : attach_received H hash_id handles object w ≡ none =
                      rw (attach_received, panics) refl in
                    absurd (cc)
                | inr made ↦ inr (iff.0 made)
              ],
              λ may. elim may [
                | inl (p, there) ↦ absurd (cc)
                | inr ordered ↦
                    let (made, returned) = iff.1 ordered in
                    ((made.0, each drop handles made.1), rw (attach_received, returned) refl)
              ],
            );
          }
    ]

-- A node that is alive, in memory where counts are right and no node has the hash 0, is sent, in
-- a mode that the sender supports, to a receiver that has some handles. However the two processes take
-- turns, there are three steps for each object that is sent and two more at most, and a process can go
-- on until the sender has returned, no packet is left and the receiver has left its loop without a panic
-- and is at the call of `attach`: it has objects of which `attaches_to` holds, each with its value and edges as in the sender's memory.
-- That call returns exactly if the receiver has the node already, or if, in the order in which
-- `post_order_for_each` calls, each object was received and its parents come before it or are among the
-- receiver's handles; otherwise it panics.
pub transfer-attaches :
    (H : Hashes) {S : SlotMaps} {N E : Type 0} (h : Heap N E) (hash_id : Ptr → H.RelRcHash)
    (obj : Ptr) {roots : List Ptr} (d : Detached H N E) (sending receiving : MpiMode) (n : ℕ)
    (t : Processes H N E) (hash_id' : Ptr → H.RelRcHash) (handles : List Ptr) (w : World S N E)
    → IsCounted roots h
    → 0 < strong_count h obj
    → ((p : Ptr) → H.to_usize (hash_id p) ≢ 0)
    → new H h hash_id obj [] ≡ some d
    → sending ≢ MpiMode.asynchronous
    → let attach_to = collect_handles H hash_id' handles [] in
      Run d attach_to (started sending receiving) n t
      → (n ≤ 2 + 3 * length d.all_data)
        × (((end : IsDelivered H h hash_id obj attach_to t) × IsDecided H hash_id' handles
                end.object w)
            ⊎ ((u : Processes H N E) × Step d attach_to t u))
transfer-attaches H h hash_id obj d sending receiving n t hash_id' handles w c alive not_zero
      detached supported run =
    let attach_to = collect_handles H hash_id' handles [] in
    let (bound, end) =
      transfer-delivers H h hash_id obj d attach_to sending receiving n t c alive not_zero detached
        supported run in
    (
      bound,
      elim end [
        | inr next ↦ inr next
        | inl over ↦ inl (over, attach_received-IsDecided H hash_id' handles over.object w)
      ],
    )
