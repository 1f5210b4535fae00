-- ===== src/Mpi/Protocol.antt =====
-- `send_relrc` and `recv_relrc` of src/detached/mpi.rs as two processes that run side by side. A step
-- of a process goes on to the next receive or to the end of its loop's body; a process that waits for
-- a message has no step. `mpi_send` is one step, since a receiver waits for what is not there yet.
pub mod Asking
pub mod Parts
pub mod Phases
pub mod Starting
pub mod Ending
pub mod Delivering
pub mod Attaching
pub mod Outcome
use relrc.Prelude.{
  ℕ, suc, ◌≡◌, Bool, true, false, not, Option, none, some, List, [], ◌∷◌, ◌++◌, if◌then◌else◌,
}
use mathlib.Core.Option
use relrc.Object.{Ptr}
use relrc.Mpi.Message.{
  Hashes, Message, MessageTag, request_rel_rc, done, packet, tag_code, extract_message,
}
use relrc.Mpi.Transfer.{DetachedInnerData, Channel, probe, mpi_send, mpi_recv}
use relrc.Detached.{Detached, hash_eq, contains_key, required_hashes, attaches_to, empty}

-- `MPIMode`
pub data MpiMode : Type 0 where
  standard buffered asynchronous : MpiMode

pub data Sender : Type 0 where
  starting waiting finished stopped : Sender

module _ (H : Hashes) where
  -- `all_data[&hash]`
  abbrev pub find_data : {A : Type 0} → List (H.RelRcHash × A) → H.RelRcHash → Option A
  find_data [] k = none
  find_data ((a, x) ∷ entries) k = if hash_eq H a k then some x else find_data entries k

  -- `all_data.insert(hash, inner)`
  abbrev pub insert_data :
      {A : Type 0} → List (H.RelRcHash × A) → H.RelRcHash → A → List (H.RelRcHash × A)
  insert_data [] k x = (k, x) ∷ []
  insert_data ((a, y) ∷ entries) k x =
      if hash_eq H a k then (a, x) ∷ entries else (a, y) ∷ insert_data entries k x

  abbrev pub find_first : (H.RelRcHash → Bool) → List H.RelRcHash → Option H.RelRcHash
  find_first test [] = none
  find_first test (k ∷ ks) = if test k then some k else find_first test ks

-- Where the receiver is in its loop, with `detached`: at the test, or at `mpi_recv`. After the loop and
-- `source.send(&MPIMessage::Done)` it is `attaching`: the call of `RelRc::attach` that is left, which may
-- panic, is `attach_received` of Attaching. `stopped` is a panic before that.
pub data Receiver (H : Hashes) (N E : Type 0) : Type 0 where
  checking : Option (Detached H N E) → Receiver H N E
  awaiting : Option (Detached H N E) → Receiver H N E
  attaching : Detached H N E → Receiver H N E
  stopped : Receiver H N E

-- Both processes, the packets on their way to the receiver, and those on their way back.
pub record Processes (H : Hashes) (N E : Type 0) : Type 0 where
  pub sender : Sender
  pub receiver : Receiver H N E
  pub down : Channel N E
  pub up : Channel N E

-- `send_relrc_async`
unfoldable pub send_relrc_async : MpiMode → Sender
send_relrc_async standard = Sender.starting
send_relrc_async buffered = Sender.starting
send_relrc_async asynchronous = Sender.stopped

module _ {H : Hashes} {N E : Type 0} where
  -- `recv_relrc`, which is for synchronous modes
  unfoldable pub recv_relrc : MpiMode → Receiver H N E
  recv_relrc standard = Receiver.checking none
  recv_relrc buffered = Receiver.checking none
  recv_relrc asynchronous = Receiver.stopped

  -- `recv_relrc_async`
  unfoldable pub recv_relrc_async : MpiMode → Receiver H N E
  recv_relrc_async standard = Receiver.checking none
  recv_relrc_async buffered = Receiver.checking none
  recv_relrc_async asynchronous = Receiver.checking none

  -- `mpi_send(dest, hash, &detached.all_data[&hash])`
  unfoldable pub send_object : Detached H N E → H.RelRcHash → Processes H N E → Processes H N E
  unfolding mpi_send
  send_object d hash s = elim (find_data H d.all_data hash) [
    | none ↦ record s { sender = Sender.stopped }
    | some inner ↦ record s { sender = Sender.waiting; down = mpi_send H hash inner s.down }
  ]

  -- What the sender does with a message that came back.
  unfoldable pub answer :
      Detached H N E → Option (Message H N E) → Processes H N E → Processes H N E
  unfolding send_object
  answer d (some done) s = record s { sender = Sender.finished }
  answer d (some (request_rel_rc hash)) s = send_object d hash s
  answer d _ s = record s { sender = Sender.stopped }

  -- `send_relrc` of an object that was detached from nothing
  unfoldable pub sender_step : Detached H N E → Processes H N E → Option (Processes H N E)
  unfolding answer send_object probe tag_code extract_message
  sender_step d s = elim s.sender [
    | starting ↦ some (send_object d d.current s)
    | waiting ↦ elim (probe (tag_code MessageTag.ack) s.up) [
      | none ↦ none
      | some (p, up) ↦ some (answer d (extract_message H p) (record s { up = up }))
    ]
    | finished ↦ none
    | stopped ↦ none
  ]

  -- `first_unknown_hash`
  unfoldable pub first_unknown_hash : Detached H N E → List (H.RelRcHash × Ptr) → Option H.RelRcHash
  unfolding required_hashes
  first_unknown_hash d attach_to =
      find_first H (λ hash. not (contains_key H attach_to hash)) (required_hashes H d)

  unfoldable pub request : Detached H N E → Option H.RelRcHash → Processes H N E → Processes H N E
  unfolding packet
  request d none s = record s { receiver = Receiver.stopped }
  request d (some hash) s = record s {
    receiver = Receiver.awaiting (some d);
    up = s.up ++ packet {H = H} (request_rel_rc hash) ∷ [];
  }

  -- The test of the `while` loop of `recv_relrc`, and the request, or what follows the loop
  unfoldable pub check :
      List (H.RelRcHash × Ptr) → Option (Detached H N E) → Processes H N E → Processes H N E
  unfolding request first_unknown_hash attaches_to packet
  check attach_to none s = record s { receiver = Receiver.awaiting none }
  check attach_to (some d) s = elim (attaches_to H d attach_to) [
    | true ↦ record s { receiver = Receiver.attaching d; up = s.up ++ packet {H = H} done ∷ [] }
    | false ↦ request d (first_unknown_hash d attach_to) s
  ]

  -- `Detached::empty` where there was nothing, and the object that came
  unfoldable pub insert_object :
      Option (Detached H N E) → H.RelRcHash → DetachedInnerData H N E → Detached H N E
  unfolding empty
  insert_object none hash inner =
      let start : Detached H N E = empty H hash in
      record start { all_data = insert_data H start.all_data hash inner }
  insert_object (some d) hash inner = record d { all_data = insert_data H d.all_data hash inner }

  unfoldable pub receiver_step :
      List (H.RelRcHash × Ptr) → Processes H N E → Option (Processes H N E)
  unfolding check mpi_recv insert_object
  receiver_step attach_to s = elim s.receiver [
    | checking detached ↦ some (check attach_to detached s)
    | awaiting detached ↦ elim (mpi_recv H s.down) [
      | none ↦ none
      | some ((hash, inner), down) ↦ some (record s {
        receiver = Receiver.checking (some (insert_object detached hash inner));
        down = down;
      })
    ]
    | attaching d ↦ none
    | stopped ↦ none
  ]

  -- Either process may go on.
  pub data Step (d : Detached H N E) (attach_to : List (H.RelRcHash × Ptr)) (s t : Processes H N E)
      : Type 0 where
    sender_goes : sender_step d s ≡ some t → Step d attach_to s t
    receiver_goes : receiver_step attach_to s ≡ some t → Step d attach_to s t

  -- Runs of a number of steps
  pub data Run (d : Detached H N E) (attach_to : List (H.RelRcHash × Ptr)) (s : Processes H N E)
      : ℕ → Processes H N E → Type 0 where
    begin : Run d attach_to s 0 s
    extend :
        {n : ℕ} {t u : Processes H N E}
        → Run d attach_to s n t
        → Step d attach_to t u
        → Run d attach_to s (suc n) u
