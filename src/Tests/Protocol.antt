-- ===== src/Tests/Protocol.antt =====
-- A run of the two processes of src/detached/mpi.rs, and the theorem about them at a concrete input.
use relrc.Prelude.{
  List, ℕ, zero, suc, ◌+◌, ◌*◌, ◌≤◌, ◌≡◌, ◌⊎◌, refl, some, [], ◌∷◌, arith, length, All, true,
}
use mathlib.Core.Option
use relrc.Mpi.Message.{packet, tag_code, extract_message}
use relrc.Mpi.Transfer.{DetachedInnerData, mpi_send, mpi_recv, receive, probe}
use relrc.Detached.{Detached, contains_key, attaches_to, required_hashes}
use relrc.Mpi.Protocol.{
  Processes, Sender, Receiver, Step, Run, begin, extend, sender_step, receiver_step, standard,
  find_data, send_relrc_async, recv_relrc_async, send_object, answer, check, request, insert_object,
  first_unknown_hash,
}
use relrc.Mpi.Protocol.Parts.{IsWhole}
use relrc.Mpi.Protocol.Ending.{IsOver, transfer-ends}
use relrc.Mpi.Protocol.Starting.{started}
use relrc.Mpi.Message.{MessageTag, word, node, edge, request_rel_rc}
use relrc.Mpi.Transfer.{Channel}
use relrc.Mpi.Polling.{poll_until, async_send_recv, standard_send_recv}
use relrc.Mpi.Polling.Waiting.{async-standard_send_recv}
use relrc.Tests.{words}

-- The object 2 with its parent 1
abbrev pub chain : Detached words ℕ ℕ
chain = record {
  current = 2;
  all_data =
      (2, record { value = 20; incoming = (1, 7) ∷ [] })
      ∷ (1, record { value = 10; incoming = [] })
      ∷ [];
}

chain_parents :
    (k : ℕ) (x : DetachedInnerData words ℕ ℕ)
    → find_data words chain.all_data k ≡ some x
    → All (λ e. contains_key words chain.all_data e.0 ≡ true) x.incoming
chain_parents zero x found = absurd (ground arith)
chain_parents (suc zero) x found =
    let same : x ≡ record { value = 10; incoming = [] } = cc in rw same tt
chain_parents (suc (suc zero)) x found =
    let same : x ≡ record { value = 20; incoming = (1, 7) ∷ [] } = cc in rw same (refl, tt)
chain_parents (suc (suc (suc k))) x found = absurd (ground arith)

chain-IsWhole : IsWhole chain
chain-IsWhole = record {
  own = refl;
  parents = chain_parents;
  not_zero = λ k there zero_hash. ground arith;
}

abbrev pub last : Processes words ℕ ℕ
last = record { sender = Sender.finished; receiver = Receiver.attaching chain; down = []; up = [] }

-- The parent is asked for, as the receiver has nothing.
chain-Run : Run chain [] (started standard standard) 8 last
unfolding started send_relrc_async recv_relrc_async sender_step receiver_step send_object answer
    check request insert_object mpi_send mpi_recv receive probe packet tag_code extract_message
    attaches_to first_unknown_hash required_hashes Option.bind
chain-Run =
    extend
      (extend
        (extend
          (extend
            (extend
              (extend (extend (extend begin (Step.sender_goes refl)) (Step.receiver_goes refl))
                (Step.receiver_goes refl))
              (Step.receiver_goes refl))
            (Step.sender_goes refl))
          (Step.receiver_goes refl))
        (Step.receiver_goes refl))
      (Step.sender_goes refl)

transfer-ends_example :
    (8 ≤ 2 + 3 * length chain.all_data)
    × (IsOver chain [] last ⊎ ((u : Processes words ℕ ℕ) × Step chain [] last u))
transfer-ends_example =
    transfer-ends chain [] standard standard 8 last chain-IsWhole (λ e. cc) chain-Run

-- A request that arrives in the second of two batches
abbrev arrivals : List (Channel ℕ ℕ)
arrivals =
    (record { tag = 1; payload = node 4 } ∷ [])
    ∷ (record { tag = 100; payload = word 6 } ∷ record { tag = 3; payload = edge 2 } ∷ [])
    ∷ []

polled :
    poll_until words MessageTag.ack [] arrivals
    ≡ some (
      request_rel_rc 6,
      record { tag = 1; payload = node 4 } ∷ record { tag = 3; payload = edge 2 } ∷ [],
    )
unfolding poll_until
polled = refl

async-standard_send_recv_example :
    (async_send_recv words {N = ℕ} {E = ℕ}).receive_out MessageTag.ack [] arrivals
    ≡ (standard_send_recv words {N = ℕ} {E = ℕ}).receive_out MessageTag.ack [] arrivals
async-standard_send_recv_example = async-standard_send_recv words MessageTag.ack [] arrivals
