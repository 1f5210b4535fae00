-- ===== src/Mpi/Transfer.antt =====
-- `mpi_send` and `mpi_recv` of src/detached/mpi.rs over a channel: the packets on their way from one
-- process to the other, in the order in which they were sent.
use mathlib.Core.Option
use relrc.Prelude.{ℕ, ◌≡◌, refl, Option, none, some, List, [], ◌∷◌, ◌++◌, map, ◌==◌, if◌then◌else◌}
use relrc.Mpi.Message.{
  Hashes, Message, MessageTag, rel_rc, node_weight, incoming_edge, edge_weight, Packet, packet,
  tag_code, extract_message,
}
use relrc.Mpi.Delivery.{map-from_usize}

-- `DetachedInnerData`
pub record DetachedInnerData (H : Hashes) (N E : Type 0) : Type 0 where
  pub value : N
  pub incoming : List (H.RelRcHash × E)

abbrev pub Channel : Type 0 → Type 0 → Type 0
Channel N E = List (Packet N E)

module _ {N E : Type 0} where
  -- `matched_probe_with_tag`: the first packet with the tag, and the others; `none` where there is
  -- none, so that the process waits.
  unfoldable pub probe : ℕ → Channel N E → Option (Packet N E × Channel N E)
  probe t [] = none
  probe t (p ∷ ps) =
      if p.tag == t then some (p, ps) else Option.map (λ (q, qs). (q, p ∷ qs)) (probe t ps)

module _ (H : Hashes) {N E : Type 0} where
  unfoldable pub receive : MessageTag → Channel N E → Option (Message H N E × Channel N E)
  unfolding probe extract_message tag_code
  receive t ch =
      Option.bind (probe (tag_code t) ch)
        (λ (p, ps). Option.map (λ m. (m, ps)) (extract_message H p))

  -- The `let .. else { panic!(..) }` patterns of `mpi_recv`
  abbrev expect_rel_rc : Message H N E → Option H.RelRcHash
  expect_rel_rc (rel_rc h) = some h
  expect_rel_rc _ = none

  abbrev expect_node_weight : Message H N E → Option N
  expect_node_weight (node_weight v) = some v
  expect_node_weight _ = none

  abbrev expect_incoming_edge : Message H N E → Option (List H.RelRcHash)
  expect_incoming_edge (incoming_edge hs) = some hs
  expect_incoming_edge _ = none

  abbrev expect_edge_weight : Message H N E → Option E
  expect_edge_weight (edge_weight v) = some v
  expect_edge_weight _ = none

  abbrev take_message :
      {A : Type 0}
      → MessageTag
      → (Message H N E → Option A)
      → Channel N E
      → Option (A × Channel N E)
  unfolding receive
  take_message t expect ch =
      Option.bind (receive t ch) (λ (m, ch'). Option.map (λ a. (a, ch')) (expect m))

  -- The loop over the hashes of the incoming edges in `mpi_recv`
  unfoldable pub receive_weights :
      List H.RelRcHash → Channel N E → Option (List (H.RelRcHash × E) × Channel N E)
  unfolding receive
  receive_weights [] ch = some ([], ch)
  receive_weights (h ∷ hs) ch =
      Option.bind (take_message MessageTag.edge_weight expect_edge_weight ch)
        λ (v, ch'). Option.map (λ (es, ch''). ((h, v) ∷ es, ch'')) (receive_weights hs ch')

  unfoldable pub mpi_recv :
      Channel N E → Option ((H.RelRcHash × DetachedInnerData H N E) × Channel N E)
  unfolding receive receive_weights
  mpi_recv ch = Option.bind (take_message MessageTag.rel_rc expect_rel_rc ch) λ (hash, ch1).
      Option.bind (take_message MessageTag.node_weight expect_node_weight ch1) λ (value, ch2).
        Option.bind (take_message MessageTag.incoming_edge expect_incoming_edge ch2) λ (hs, ch3).
          Option.map (λ (es, ch4). ((hash, record { value = value; incoming = es }), ch4))
            (receive_weights hs ch3)

module _ (H : Hashes) {N E : Type 0} where
  -- The messages of `mpi_send`, in order. A hash becomes the word of an `MPIRelRc` or an
  -- `MPIIncomingEdge`, and that becomes the message.
  unfoldable pub messages : H.RelRcHash → DetachedInnerData H N E → List (Message H N E)
  messages hash d =
      rel_rc (H.from_usize (H.to_usize hash))
      ∷ node_weight d.value
      ∷ incoming_edge (map H.from_usize (map H.to_usize (map (λ e. e.0) d.incoming)))
      ∷ map (λ e. edge_weight e.1) d.incoming

  unfoldable pub mpi_send : H.RelRcHash → DetachedInnerData H N E → Channel N E → Channel N E
  unfolding messages packet
  mpi_send hash d ch = ch ++ map (packet {H = H}) (messages hash d)

  receive_weights-sent :
      (es : List (H.RelRcHash × E)) (rest : Channel N E)
      → receive_weights H
          (map (λ e. e.0) es)
          (map (packet {H = H}) (map (λ e. edge_weight e.1) es) ++ rest)
        ≡ some (es, rest)
  unfolding receive_weights receive probe packet tag_code extract_message Option.bind
  receive_weights-sent [] rest = refl
  receive_weights-sent ((h, v) ∷ es) rest = rw (receive_weights-sent es rest)

  -- What `mpi_send` puts on an empty channel `mpi_recv` takes off it: the same hash, value and edges,
  -- and whatever was sent after them stays.
  pub mpi_recv-mpi_send :
      (hash : H.RelRcHash) (d : DetachedInnerData H N E) (rest : Channel N E)
      → mpi_recv H (mpi_send hash d [] ++ rest) ≡ some ((hash, d), rest)
  unfolding mpi_recv mpi_send probe packet tag_code extract_message Option.bind
  mpi_recv-mpi_send hash d rest = rw (
    H.from_usize-to_usize hash,
    H.from_usize-to_usize hash,
    map-from_usize H (map (λ e. e.0) d.incoming),
    map-from_usize H (map (λ e. e.0) d.incoming),
    receive_weights-sent d.incoming rest,
  )
