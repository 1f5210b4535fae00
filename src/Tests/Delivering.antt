-- ===== src/Tests/Delivering.antt =====
-- A child and its parent sent from memory (src/detached/mpi.rs).
use mathlib.Core.Option
use relrc.Prelude.{ℕ, ◌+◌, ◌*◌, ◌≤◌, ◌≡◌, ◌⊎◌, refl, some, [], ◌∷◌, arith, length}
use relrc.Object.{clone}
use relrc.Node
use relrc.Node.{with_parents}
use relrc.Mpi.Message.{packet, tag_code, extract_message}
use relrc.Mpi.Transfer.{mpi_send, mpi_recv, receive, probe}
use relrc.Detached.{Detached, attaches_to, required_hashes}
use relrc.Detached.Detaching
use relrc.Mpi.Protocol.{
  Processes, Step, Run, begin, extend, sender_step, receiver_step, send_relrc_async,
  recv_relrc_async, send_object, answer, check, request, insert_object, first_unknown_hash,
  standard,
}
use relrc.Mpi.Protocol.Starting.{started}
use relrc.Mpi.Protocol.Delivering.{IsDelivered}
use relrc.Mpi.Protocol.Outcome.{IsDecided, transfer-attaches}
use relrc.SlotMap.Reference.{slots}
use relrc.World.{World}
use relrc.Tests.{words, family, family-IsValid}
use relrc.Tests.Detaching.{hash_of}
use relrc.Tests.Protocol.{last}

abbrev pub child : Detached words ℕ ℕ
child = record {
  current = 2;
  all_data =
      (1, record { value = 10; incoming = [] })
      ∷ (2, record { value = 20; incoming = (1, 7) ∷ [] })
      ∷ [];
}

-- The receiver's memory, in which there is nothing
abbrev receiving : World slots ℕ ℕ
receiving = record { heap = []; registries = [] }

pub child_detached : Detaching.new words family hash_of 1 [] ≡ some child
unfolding Detaching.new with_parents Node.new clone Option.bind
child_detached = refl

pub child-Run : Run child [] (started standard standard) 8 last
unfolding started send_relrc_async recv_relrc_async sender_step receiver_step send_object answer
    check request insert_object mpi_send mpi_recv receive probe packet tag_code extract_message
    attaches_to first_unknown_hash required_hashes Option.bind
child-Run =
    extend
      (extend
        (extend
          (extend
            (extend
              (extend (extend (extend begin (Step.receiver_goes refl)) (Step.sender_goes refl))
                (Step.receiver_goes refl))
              (Step.receiver_goes refl))
            (Step.sender_goes refl))
          (Step.receiver_goes refl))
        (Step.receiver_goes refl))
      (Step.sender_goes refl)

transfer-attaches_example :
    (8 ≤ 2 + 3 * length child.all_data)
    × (((end : IsDelivered words family hash_of 1 [] last) × IsDecided words hash_of [] end.object
            receiving)
        ⊎ ((u : Processes words ℕ ℕ) × Step child [] last u))
unfolding with_parents Node.new clone
transfer-attaches_example =
    transfer-attaches words family hash_of 1 child standard standard 8 last hash_of [] receiving
      family-IsValid.counts (omega arith) (λ p. omega arith) child_detached (λ e. cc) child-Run
