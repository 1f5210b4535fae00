-- ===== src/Mpi/Message.antt =====
-- src/detached/mpi/msg_types.rs and src/detached/mpi/send_recv.rs: messages, their tags, and what
-- MPI carries. `RelRcHash` stands in the module `hash_id`, which is not part of the repository: it is
-- a parameter, a type that goes to `usize` and back.
use relrc.Prelude.{ℕ, ◌≡◌, Option, none, some, List, map, ◌==◌, if◌then◌else◌}

pub record Hashes : Type 1 where
  pub RelRcHash : Type 0
  pub to_usize : RelRcHash → ℕ
  pub from_usize : ℕ → RelRcHash
  pub from_usize-to_usize : (h : RelRcHash) → from_usize (to_usize h) ≡ h

-- `MPIMessage`
pub data Message (H : Hashes) (N E : Type 0) : Type 0 where
  rel_rc : H.RelRcHash → Message H N E
  node_weight : N → Message H N E
  incoming_edge : List H.RelRcHash → Message H N E
  edge_weight : E → Message H N E
  request_rel_rc : H.RelRcHash → Message H N E
  done : Message H N E

-- `MPIMessageTag`
pub data MessageTag : Type 0 where
  rel_rc node_weight incoming_edge edge_weight ack : MessageTag

-- `tag as i32`
unfoldable pub tag_code : MessageTag → ℕ
tag_code rel_rc = 0
tag_code node_weight = 1
tag_code incoming_edge = 2
tag_code edge_weight = 3
tag_code ack = 100

-- `MPIMessageTag::try_from`
unfoldable pub try_from : ℕ → Option MessageTag
try_from value =
    if value == 0
    then some MessageTag.rel_rc
    else if value == 1
    then some MessageTag.node_weight
    else if value == 2
    then some MessageTag.incoming_edge
    else if value == 3
    then some MessageTag.edge_weight
    else if value == 100
    then some MessageTag.ack
    else none

-- What MPI carries: values of the datatypes `usize` (as `MPIRelRc` and `MPIAck` are), `[usize]` (as
-- `MPIIncomingEdge`s are), `N` and `E`.
pub data Payload (N E : Type 0) : Type 0 where
  word : ℕ → Payload N E
  words : List ℕ → Payload N E
  node : N → Payload N E
  edge : E → Payload N E

pub record Packet (N E : Type 0) : Type 0 where
  pub tag : ℕ
  pub payload : Payload N E

module _ {H : Hashes} {N E : Type 0} where
  -- `MPIMessage::tag`
  unfoldable pub tag_of : Message H N E → MessageTag
  tag_of (rel_rc h) = MessageTag.rel_rc
  tag_of (node_weight v) = MessageTag.node_weight
  tag_of (incoming_edge hs) = MessageTag.incoming_edge
  tag_of (edge_weight v) = MessageTag.edge_weight
  tag_of (request_rel_rc h) = MessageTag.ack
  tag_of done = MessageTag.ack

  payload_of : Message H N E → Payload N E
  payload_of (rel_rc h) = word (H.to_usize h)
  payload_of (node_weight v) = node v
  payload_of (incoming_edge hs) = words (map H.to_usize hs)
  payload_of (edge_weight v) = edge v
  payload_of (request_rel_rc h) = word (H.to_usize h)
  payload_of done = word 0

  -- `generate_send_match!`
  unfoldable pub packet : Message H N E → Packet N E
  unfolding tag_of tag_code payload_of
  packet m = record { tag = tag_code (tag_of m); payload = payload_of m }

-- `MPIMessage::from(MPIAck)`
unfoldable pub from_ack : (H : Hashes) {N E : Type 0} → ℕ → Message H N E
from_ack H hash = if hash == 0 then done else request_rel_rc (H.from_usize hash)

-- `extract_message`, by the tag; `none` is a receive with the wrong datatype.
unfoldable pub extract_as :
    (H : Hashes) {N E : Type 0} → MessageTag → Payload N E → Option (Message H N E)
unfolding from_ack
extract_as H rel_rc (word n) = some (rel_rc (H.from_usize n))
extract_as H node_weight (node v) = some (node_weight v)
extract_as H incoming_edge (words ns) = some (incoming_edge (map H.from_usize ns))
extract_as H edge_weight (edge v) = some (edge_weight v)
extract_as H ack (word n) = some (from_ack H n)
extract_as H _ _ = none

-- `extract_message`; `none` is also the panic at an invalid tag.
unfoldable pub extract_message : (H : Hashes) {N E : Type 0} → Packet N E → Option (Message H N E)
unfolding try_from extract_as
extract_message H p = elim (try_from p.tag) [ none ↦ none | some t ↦ extract_as H t p.payload ]
