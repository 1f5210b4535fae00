-- ===== src/Mpi/Polling/Waiting.antt =====
-- The asynchronous receive of src/detached/mpi/send_recv.rs takes what the blocking one takes.
use mathlib.Core.Option
use relrc.Prelude.{
  concat_nil, concat_assoc, ℕ, ◌≡◌, inl, inr, refl, sym, ap, ◌∙◌, some, List, [], ◌∷◌, ◌++◌, ◌==◌,
  arith, Bool-cases, Option-cases,
}
use relrc.Mpi.Message.{Hashes, MessageTag, Packet, tag_code, extract_message}
use relrc.Mpi.Transfer.{Channel, probe, receive}
use relrc.Mpi.Polling.{async_send_recv, standard_send_recv, poll, flatten, arrive, poll_until}

-- What is there already is taken before what arrives.
probe-concat :
    {N E : Type 0} (t : ℕ) (ch more : Channel N E) (p : Packet N E) (rest : Channel N E)
    → probe t ch ≡ some (p, rest)
    → probe t (ch ++ more) ≡ some (p, rest ++ more)
unfolding probe
probe-concat {N} {E} t [] more p rest found = cc
probe-concat {N} {E} t (q ∷ ch) more p rest found = elim (Bool-cases (q.tag == t)) [
  | inl here ↦
      rw here
        (ap (Option.map (λ (o : Packet N E × Channel N E). (o.0, o.1 ++ more))) (rw here at found))
  | inr other ↦ elim (Option-cases (probe t ch)) [
    | inl gone ↦ absurd (ground arith)
    | inr ((q', rest'), e) ↦
        rw (other, probe-concat t ch more q' rest' e)
          (ap (Option.map (λ (o : Packet N E × Channel N E). (o.0, o.1 ++ more)))
            (rw (other, e) at found))
  ]
]

module _ (H : Hashes) {N E : Type 0} where
  poll-ready :
      (tag : MessageTag) (ch more : Channel N E) (p : Packet N E) (rest : Channel N E)
      → probe (tag_code tag) ch ≡ some (p, rest)
      → receive H tag (ch ++ more)
        ≡ arrive H more (Option.map (λ m. (m, rest)) (extract_message H p))
  unfolding receive Option.bind
  poll-ready tag ch more p rest found =
      rw (probe-concat (tag_code tag) ch more p rest found)
        (elim (Option-cases (extract_message H {N = N} {E = E} p)) [
          | inl gone ↦ rw gone refl
          | inr (m, e) ↦ rw e refl
        ])

  poll_until-receive :
      (tag : MessageTag) (ch : Channel N E) (arrivals : List (Channel N E))
      → poll_until H tag ch arrivals ≡ receive H tag (ch ++ flatten H arrivals)
  unfolding poll_until poll receive Option.bind
  poll_until-receive tag ch [] = rw (concat_nil ch) (elim (Option-cases (probe (tag_code tag) ch)) [
    | inl gone ↦ rw (poll_until, poll, gone) refl
    | inr ((p, rest), found) ↦ rw (poll_until, poll, found) refl
  ])
  poll_until-receive tag ch (ps ∷ more) = elim (Option-cases (probe (tag_code tag) ch)) [
    | inl gone ↦
        rw (poll_until, poll, gone)
          (poll_until-receive tag (ch ++ ps) more
            ∙ ap (receive H tag) (concat_assoc ch ps (flatten H more)))
    | inr ((p, rest), found) ↦
        rw (poll_until, poll, found) (sym (poll-ready tag ch (ps ++ flatten H more) p rest found))
  ]

  -- However the packets that arrive are spread over the polls, polling until the message is there
  -- takes the message, and leaves the packets, that the standard mode does.
  pub async-standard_send_recv :
      (tag : MessageTag) (ch : Channel N E) (arrivals : List (Channel N E))
      → (async_send_recv H {N = N} {E = E}).receive_out tag ch arrivals
        ≡ (standard_send_recv H {N = N} {E = E}).receive_out tag ch arrivals
  unfolding async_send_recv standard_send_recv
  async-standard_send_recv tag ch arrivals = poll_until-receive tag ch arrivals
