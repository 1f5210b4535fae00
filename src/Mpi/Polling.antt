-- ===== src/Mpi/Polling.antt =====
-- `MPISendRecv` of src/detached/mpi/send_recv.rs and its three modes, of which the asynchronous one
-- receives by a future that is polled while packets arrive.
pub mod Waiting
use mathlib.Core.Option
use relrc.Prelude.{Option, none, some, List, [], ◌∷◌, ◌++◌}
use relrc.Mpi.Message.{Hashes, Message, MessageTag, Packet, packet, tag_code, extract_message}
use relrc.Mpi.Transfer.{Channel, probe, receive}

-- `std::task::Poll`
pub data Poll (A : Type 0) : Type 0 where
  ready : A → Poll A
  pending : Poll A

module _ (H : Hashes) {N E : Type 0} where
  -- `ReceiveMessageFuture::poll`; `none` within `ready` is a panic.
  unfoldable pub poll : MessageTag → Channel N E → Poll (Option (Message H N E × Channel N E))
  unfolding probe tag_code extract_message
  poll tag ch = elim (probe (tag_code tag) ch) [
    | some (msg, rest) ↦ ready (Option.map (λ m. (m, rest)) (extract_message H msg))
    | none ↦ pending
  ]

  abbrev pub flatten : List (Channel N E) → Channel N E
  flatten [] = []
  flatten (ps ∷ more) = ps ++ flatten more

  -- The packets that arrive after the message was taken
  abbrev pub arrive :
      Channel N E → Option (Message H N E × Channel N E) → Option (Message H N E × Channel N E)
  arrive more = Option.map (λ (m, rest). (m, rest ++ more))

  -- The future, polled until it is ready; where it is pending, more packets arrive before it is polled
  -- again, which `wake_by_ref` asks for. `none` is a panic, or a wait that no packet ends.
  unfoldable pub poll_until :
      MessageTag → Channel N E → List (Channel N E) → Option (Message H N E × Channel N E)
  unfolding poll
  poll_until tag ch [] = elim (poll tag ch) [ ready out ↦ out | pending ↦ none ]
  poll_until tag ch (ps ∷ more) = elim (poll tag ch) [
    | ready out ↦ arrive (ps ++ flatten more) out
    | pending ↦ poll_until tag (ch ++ ps) more
  ]

-- `MPISendRecv`: what `send` puts on the channel, and what `receive` takes while packets arrive.
pub record SendRecv (H : Hashes) (N E : Type 0) : Type 0 where
  pub send : Message H N E → Channel N E → Channel N E
  pub receive_out :
      MessageTag → Channel N E → List (Channel N E) → Option (Message H N E × Channel N E)

module _ (H : Hashes) {N E : Type 0} where
  -- `send_with_tag` and `buffered_send_with_tag`, which differ in where MPI keeps the packet
  unfoldable pub send_with_tag : Message H N E → Channel N E → Channel N E
  unfolding packet
  send_with_tag msg ch = ch ++ packet {H = H} msg ∷ []

  -- `MPIStandardSendRecv`: a probe waits until the message has arrived.
  unfoldable pub standard_send_recv : SendRecv H N E
  unfolding receive send_with_tag
  standard_send_recv = record {
    send = send_with_tag;
    receive_out = λ tag ch arrivals. receive H tag (ch ++ flatten H arrivals);
  }

  -- `MPIBufferedSendRecv`
  unfoldable pub buffered_send_recv : SendRecv H N E
  unfolding receive send_with_tag
  buffered_send_recv = record {
    send = send_with_tag;
    receive_out = λ tag ch arrivals. receive H tag (ch ++ flatten H arrivals);
  }

  -- `MPIAsyncSendRecv`
  unfoldable pub async_send_recv : SendRecv H N E
  unfolding poll_until send_with_tag
  async_send_recv = record { send = send_with_tag; receive_out = poll_until H }
