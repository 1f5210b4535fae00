-- ===== src/Mpi/Protocol/Starting.antt =====
-- The start of a transfer of src/detached/mpi.rs, in each mode.
use relrc.Prelude.{◌+◌, ◌*◌, ◌≤◌, ◌≡◌, ◌≢◌, refl, none, List, [], arith, length}
use relrc.Object.{Ptr}
use relrc.Mpi.Message.{Hashes}
use relrc.Detached.{Detached}
use relrc.Mpi.Protocol.{
  Processes, MpiMode, standard, buffered, asynchronous, send_relrc_async, recv_relrc_async, Sender,
  Receiver,
}
use relrc.Mpi.Protocol.Phases.{Phase, steps_left, at_start}

send_relrc_async-starting :
    (mode : MpiMode) → mode ≢ MpiMode.asynchronous → send_relrc_async mode ≡ Sender.starting
unfolding send_relrc_async
send_relrc_async-starting standard supported = refl
send_relrc_async-starting buffered supported = refl
send_relrc_async-starting asynchronous supported = absurd (supported refl)

module _ {H : Hashes} {N E : Type 0} where
  unfoldable pub started : MpiMode → MpiMode → Processes H N E
  unfolding send_relrc_async recv_relrc_async
  started sending receiving = record {
    sender = send_relrc_async sending;
    receiver = recv_relrc_async receiving;
    down = [];
    up = [];
  }

  recv_relrc_async-checking :
      (mode : MpiMode) → recv_relrc_async {H = H} {N = N} {E = E} mode ≡ Receiver.checking none
  unfolding recv_relrc_async
  recv_relrc_async-checking standard = refl
  recv_relrc_async-checking buffered = refl
  recv_relrc_async-checking asynchronous = refl

  pub started-Phase :
      (d : Detached H N E) (attach_to : List (H.RelRcHash × Ptr)) (sending receiving : MpiMode)
      → sending ≢ MpiMode.asynchronous
      → (p : Phase d attach_to (started sending receiving)) × (steps_left d p
          ≤ 2 + 3 * length d.all_data)
  unfolding started
  started-Phase d attach_to sending receiving supported =
      rw (send_relrc_async-starting sending supported, recv_relrc_async-checking receiving)
        (at_start, omega arith)
