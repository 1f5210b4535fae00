-- ===== src/Mpi/Delivery.antt =====
-- What a message is on the other side of `send` and `receive` of src/detached/mpi/send_recv.rs.
use relrc.Prelude.{
  false, ◌≡◌, ◌≢◌, refl, ap, some, List, [], ◌∷◌, map, ◌==◌, arith, ◌⊎◌, inl, inr, subst,
  Bool-cases,
}
use relrc.Mpi.Message.{
  Hashes, Message, rel_rc, node_weight, incoming_edge, edge_weight, request_rel_rc, done, packet,
  extract_message,
}

pub map-from_usize :
    (H : Hashes) (hs : List H.RelRcHash) → map H.from_usize (map H.to_usize hs) ≡ hs
map-from_usize H [] = refl
map-from_usize H (h ∷ hs) = rw (H.from_usize-to_usize h) (ap (λ xs. h ∷ xs) (map-from_usize H hs))

module _ {H : Hashes} {N E : Type 0} where
  -- A message arrives as it was sent, if it does not ask for the hash that is 0.
  pub extract_message-packet :
      (m : Message H N E)
      → ((h : H.RelRcHash) → m ≡ request_rel_rc h → H.to_usize h ≢ 0)
      → extract_message H (packet m) ≡ some m
  unfolding extract_message packet
  extract_message-packet (rel_rc h) ne = rw (H.from_usize-to_usize h)
  extract_message-packet (node_weight v) ne = refl
  extract_message-packet (incoming_edge hs) ne = rw (map-from_usize H hs)
  extract_message-packet (edge_weight v) ne = refl
  extract_message-packet (request_rel_rc h) ne =
      let zero_test : (H.to_usize h == 0) ≡ false = ground (arith, ne h refl) in
      rw (zero_test, H.from_usize-to_usize h)
  extract_message-packet done ne = refl

  -- A message that asks for the hash that is 0 arrives as `Done`.
  pub extract_message-zero :
      (h : H.RelRcHash)
      → H.to_usize h ≡ 0
      → extract_message H (packet {H = H} {N = N} {E = E} (request_rel_rc h)) ≡ some done
  unfolding extract_message packet
  extract_message-zero h zero_hash = rw zero_hash

  -- A message arrives as it was sent, or it asks for the hash that is 0 and arrives as `Done`.
  pub extract_message_cases :
      (m : Message H N E)
      → (extract_message H (packet m) ≡ some m)
        ⊎ ((h : H.RelRcHash) × (m ≡ request_rel_rc h)
            × (H.to_usize h ≡ 0)
            × (extract_message H (packet m) ≡ some done))
  extract_message_cases (rel_rc h) = inl (extract_message-packet (rel_rc h) (λ k e. cc))
  extract_message_cases (node_weight v) = inl (extract_message-packet (node_weight v) (λ k e. cc))
  extract_message_cases (incoming_edge hs) =
      inl (extract_message-packet (incoming_edge hs) (λ k e. cc))
  extract_message_cases (edge_weight v) = inl (extract_message-packet (edge_weight v) (λ k e. cc))
  extract_message_cases (request_rel_rc h) = elim (Bool-cases (H.to_usize h == 0)) [
    | inl zero_hash ↦
        let is : H.to_usize h ≡ 0 = ground arith in inr (h, refl, is, extract_message-zero h is)
    | inr other ↦ inl (
        extract_message-packet (request_rel_rc h)
          (λ k e. let same : h ≡ k = cc in subst (λ j. H.to_usize j ≢ 0) same (ground arith)))
  ]
  extract_message_cases done = inl (extract_message-packet done (λ k e. cc))
