-- ===== src/Mpi/Protocol/Phases.antt =====
-- The phases of the transfer of src/detached/mpi.rs: in which states the two processes and the packets
-- between them are together.
use relrc.Prelude.{ℕ, ◌+◌, ◌*◌, ◌≡◌, true, Option, none, some, List, [], ◌∷◌, length}
use relrc.Object.{Ptr}
use relrc.Mpi.Message.{Hashes, request_rel_rc, done, packet}
use relrc.Mpi.Transfer.{DetachedInnerData, mpi_send}
use relrc.Detached.{Detached, contains_key, attaches_to}
use relrc.Mpi.Protocol.{Processes, Sender, Receiver, find_data}
use relrc.Mpi.Protocol.Parts.{IsPart, Wanted, missing_at}

module _ {H : Hashes} {N E : Type 0} (d : Detached H N E) where
  pub data Phase (attach_to : List (H.RelRcHash × Ptr)) : Processes H N E → Type 0 where
    at_start :
        Phase attach_to (record {
          sender = Sender.starting;
          receiver = Receiver.checking none;
          down = [];
          up = [];
        })
    receiver_first :
        Phase attach_to (record {
          sender = Sender.starting;
          receiver = Receiver.awaiting none;
          down = [];
          up = [];
        })
    sender_first :
        (x : DetachedInnerData H N E)
        → find_data H d.all_data d.current ≡ some x
        → Phase attach_to (record {
          sender = Sender.waiting;
          receiver = Receiver.checking none;
          down = mpi_send H d.current x [];
          up = [];
        })
    sent :
        (o : Option (Detached H N E)) (k : H.RelRcHash) (x : DetachedInnerData H N E)
        → find_data H d.all_data k ≡ some x
        → Wanted d o k
        → Phase attach_to (record {
          sender = Sender.waiting;
          receiver = Receiver.awaiting o;
          down = mpi_send H k x [];
          up = [];
        })
    received :
        (r : Detached H N E)
        → IsPart d r
        → Phase attach_to (record {
          sender = Sender.waiting;
          receiver = Receiver.checking (some r);
          down = [];
          up = [];
        })
    asked :
        (r : Detached H N E) (k : H.RelRcHash)
        → contains_key H d.all_data k ≡ true
        → Wanted d (some r) k
        → Phase attach_to (record {
          sender = Sender.waiting;
          receiver = Receiver.awaiting (some r);
          down = [];
          up = packet {H = H} (request_rel_rc k) ∷ [];
        })
    told :
        (r : Detached H N E)
        → IsPart d r
        → attaches_to H r attach_to ≡ true
        → Phase attach_to (record {
          sender = Sender.waiting;
          receiver = Receiver.attaching r;
          down = [];
          up = packet {H = H} done ∷ [];
        })
    over :
        (r : Detached H N E)
        → IsPart d r
        → attaches_to H r attach_to ≡ true
        → Phase attach_to (record {
          sender = Sender.finished;
          receiver = Receiver.attaching r;
          down = [];
          up = [];
        })

  -- How many steps there are at most from a phase on
  abbrev pub steps_left :
      {attach_to : List (H.RelRcHash × Ptr)} {s : Processes H N E} → Phase attach_to s → ℕ
  steps_left at_start = 2 + 3 * length d.all_data
  steps_left receiver_first = 1 + 3 * length d.all_data
  steps_left (sender_first x e) = 1 + 3 * length d.all_data
  steps_left (sent o k x e wanted) = 3 * missing_at d o
  steps_left (received r part) = 2 + 3 * missing_at d (some r)
  steps_left (asked r k e wanted) = 1 + 3 * missing_at d (some r)
  steps_left (told r part e) = 1
  steps_left (over r part e) = 0
