-- ===== src/Mpi/Protocol/Ending.antt =====
-- The transfer of src/detached/mpi.rs stays in its phases and comes to its end.
use relrc.Prelude.{
  concat_nil, ℕ, ◌+◌, ◌*◌, ◌<◌, ◌≤◌, ◌≡◌, ◌≢◌, ◌⊎◌, inl, inr, refl, sym, ap, ◌∙◌, subst, true,
  false, Option, none, some, List, [], arith, ◌==◌, Bool-cases, length,
}
use mathlib.Core.Option
use relrc.Object.{Ptr}
use relrc.Mpi.Message.{Hashes, tag_code}
use relrc.Mpi.Transfer.{DetachedInnerData, probe, receive, mpi_send, mpi_recv, mpi_recv-mpi_send}
use relrc.Detached.{Detached, attaches_to}
use relrc.Mpi.Protocol.{
  Processes, MpiMode, Sender, Receiver, insert_object, sender_step, receiver_step, send_object,
  answer, check, request, Step, Run, begin, extend,
}
use relrc.Mpi.Protocol.Asking.{
  first_unknown_hash-asks, contains_key-find_data, find_data-contains_key,
}
use relrc.Mpi.Protocol.Parts.{
  IsWhole, IsPart, parents-known, insert_object-IsPart, insert_object-missing,
}
use relrc.Mpi.Protocol.Starting.{started, started-Phase}
use relrc.Mpi.Protocol.Phases.{
  Phase, steps_left, at_start, receiver_first, sender_first, sent, received, asked, told, over,
}

-- What the receiver takes off the channel where one object was sent.
mpi_recv-sent :
    (H : Hashes) {N E : Type 0} (k : H.RelRcHash) (x : DetachedInnerData H N E)
    → mpi_recv H (mpi_send H k x []) ≡ some ((k, x), [])
mpi_recv-sent H k x =
    ap (mpi_recv H) (sym (concat_nil (mpi_send H k x []))) ∙ mpi_recv-mpi_send H k x []

module _ {H : Hashes} {N E : Type 0} (d : Detached H N E)
    (attach_to : List (H.RelRcHash × Ptr)) where
  -- The end of the exchange: the sender has returned, and the receiver is at the call of `attach`. Each
  -- parent that the objects of the receiver name is one of them or in `attach_to`, these objects are
  -- the sender's, and no packet is left.
  pub record IsOver (t : Processes H N E) : Type 0 where
    pub object : Detached H N E
    pub sender : t.sender ≡ Sender.finished
    pub receiver : t.receiver ≡ Receiver.attaching object
    pub attaches : attaches_to H object attach_to ≡ true
    pub part : IsPart d object
    pub down : t.down ≡ []
    pub up : t.up ≡ []

  receiver_step-sent :
      (o : Option (Detached H N E)) (k : H.RelRcHash) (x : DetachedInnerData H N E)
      → receiver_step attach_to (record {
        sender = Sender.waiting;
        receiver = Receiver.awaiting o;
        down = mpi_send H k x [];
        up = [];
      })
        ≡ some (record {
          sender = Sender.waiting;
          receiver = Receiver.checking (some (insert_object o k x));
          down = [];
          up = [];
        })
  unfolding receiver_step
  receiver_step-sent o k x = rw (receiver_step, mpi_recv-sent H k x) refl

module _ {H : Hashes} {N E : Type 0} (d : Detached H N E) (attach_to : List (H.RelRcHash × Ptr))
    (whole : IsWhole d) where
  -- A step leads to a phase from which less is left.
  Next : ℕ → Processes H N E → Type 0
  Next n t = (p : Phase d attach_to t) × (steps_left d p < n)

  abbrev Moves : ℕ → Option (Processes H N E) → Type 0
  Moves n none = Unit {0}
  Moves n (some t) = Next n t

  Next-of :
      (n : ℕ) {o : Option (Processes H N E)} {t : Processes H N E}
      → Moves n o
      → o ≡ some t
      → Next n t
  Next-of n moves e = subst (Moves n) e moves

  sender-Moves :
      {s : Processes H N E} (p : Phase d attach_to s) → Moves (steps_left d p) (sender_step d s)
  unfolding sender_step Next send_object answer probe tag_code
  sender-Moves at_start =
      let (x, found) = find_data-contains_key H d.all_data d.current whole.own in
      rw (send_object, found) (sender_first x found, omega arith)
  sender-Moves receiver_first =
      let (x, found) = find_data-contains_key H d.all_data d.current whole.own in
      rw (send_object, found) (sent none d.current x found refl, omega arith)
  sender-Moves (sender_first x e) = tt
  sender-Moves (sent o k x e wanted) = tt
  sender-Moves (received r part) = tt
  sender-Moves (asked r k e wanted) =
      let (x, found) = find_data-contains_key H d.all_data k e in
      let zero_test : (H.to_usize k == 0) ≡ false = ground (arith, whole.not_zero k e) in
      rw (zero_test, H.from_usize-to_usize k, answer, send_object, found, H.from_usize-to_usize k)
        (sent (some r) k x found wanted, omega arith)
  sender-Moves (told r part e) = (over r part e, omega arith)
  sender-Moves (over r part e) = tt

  receiver-Moves :
      {s : Processes H N E} (p : Phase d attach_to s)
      → Moves (steps_left d p) (receiver_step attach_to s)
  unfolding receiver_step Next check request mpi_recv probe tag_code Option.bind receive
  receiver-Moves at_start = (receiver_first, omega arith)
  receiver-Moves receiver_first = tt
  receiver-Moves (sender_first x e) = (sent none d.current x e refl, omega arith)
  receiver-Moves (sent o k x e wanted) =
      let less = insert_object-missing d o k x (contains_key-find_data H d.all_data k x e) wanted in
      rw (receiver_step-sent d attach_to o k x)
        (received (insert_object o k x) (insert_object-IsPart d o k x e wanted), omega arith)
  receiver-Moves (received r part) = elim (Bool-cases (attaches_to H r attach_to)) [
    | inl ready ↦ rw (check, ready) (told r part ready, omega arith)
    | inr not_yet ↦
        let (k, found, parent, new) = first_unknown_hash-asks H r attach_to not_yet in
        rw (check, not_yet, request, found)
          (
            asked r k (parents-known d whole r.all_data k part.entries parent) (part, new),
            omega arith,
          )
  ]
  receiver-Moves (asked r k e wanted) = tt
  receiver-Moves (told r part e) = tt
  receiver-Moves (over r part e) = tt

  Step-Next :
      {s t : Processes H N E} (p : Phase d attach_to s)
      → Step d attach_to s t
      → Next (steps_left d p) t
  Step-Next p (Step.sender_goes e) = Next-of (steps_left d p) (sender-Moves p) e
  Step-Next p (Step.receiver_goes e) = Next-of (steps_left d p) (receiver-Moves p) e

  pub Run-Phase :
      {s : Processes H N E} (p : Phase d attach_to s) {n : ℕ} {t : Processes H N E}
      → Run d attach_to s n t
      → (q : Phase d attach_to t) × (n + steps_left d q ≤ steps_left d p)
  unfolding Next
  Run-Phase p begin = (p, omega arith)
  Run-Phase p (extend run step) =
      let (q, bound) = Run-Phase p run in let (q', less) = Step-Next q step in (q', omega arith)

  -- In each phase but the last a process can go on.
  Phase-progress :
      {s : Processes H N E}
      → Phase d attach_to s
      → IsOver d attach_to s ⊎ ((t : Processes H N E) × Step d attach_to s t)
  unfolding sender_step receiver_step probe tag_code
  Phase-progress at_start = inr (_, Step.receiver_goes refl)
  Phase-progress receiver_first = inr (_, Step.sender_goes refl)
  Phase-progress (sender_first x e) = inr (_, Step.receiver_goes refl)
  Phase-progress (sent o k x e wanted) =
      inr (_, Step.receiver_goes (receiver_step-sent d attach_to o k x))
  Phase-progress (received r part) = inr (_, Step.receiver_goes refl)
  Phase-progress (asked r k e wanted) = inr (_, Step.sender_goes refl)
  Phase-progress (told r part e) = inr (_, Step.sender_goes refl)
  Phase-progress (over r part e) = inl (record {
    object = r;
    sender = refl;
    receiver = refl;
    attaches = e;
    part = part;
    down = refl;
    up = refl;
  })

-- However the sender, in a mode that it supports, and the receiver take turns, the transfer of an
-- object with all its ancestors, none of which has the hash 0, takes three steps for each object that
-- is sent and two more at most, and as long as a process can go on. Where none can, the sender has
-- returned, the receiver has left its loop without a panic and is at the call of `attach`, no packet is
-- left, and the receiver has objects of the sender of which `attaches_to` holds. What that call does is
-- not part of the run.
pub transfer-ends :
    {H : Hashes} {N E : Type 0} (d : Detached H N E) (attach_to : List (H.RelRcHash × Ptr))
    (sending receiving : MpiMode) (n : ℕ) (t : Processes H N E)
    → IsWhole d
    → sending ≢ MpiMode.asynchronous
    → Run d attach_to (started sending receiving) n t
    → (n ≤ 2 + 3 * length d.all_data)
      × (IsOver d attach_to t ⊎ ((u : Processes H N E) × Step d attach_to t u))
transfer-ends d attach_to sending receiving n t whole supported run =
    let (start, short) = started-Phase d attach_to sending receiving supported in
    let (p, bound) = Run-Phase d attach_to whole start run in
    (omega arith, Phase-progress d attach_to whole p)
