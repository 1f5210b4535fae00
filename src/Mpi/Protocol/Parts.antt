-- ===== src/Mpi/Protocol/Parts.antt =====
-- What the two sides of the transfer of src/detached/mpi.rs have, and what the receiver misses.
use relrc.Prelude.{
  ℕ, suc, ◌<◌, ◌≤◌, ◌≡◌, ◌≢◌, inl, inr, refl, sym, ◌∙◌, subst, true, false, Option, none, some,
  List, [], ◌∷◌, ◌++◌, map, arith, if◌then◌else◌, Bool-cases, All, length,
}
use mathlib.Core.List.{Memᴰ}
use mathlib.Core.List.Memᴰ
use relrc.Mpi.Message.{Hashes}
use relrc.Mpi.Transfer.{DetachedInnerData}
use relrc.Detached.{Detached, hash_eq, contains_key, all_data_parents}
use relrc.Detached.Attaching.{hash_eq_sound}
use relrc.Mpi.Protocol.{find_data, insert_data, insert_object}
use relrc.Mpi.Protocol.Asking.{contains_key-insert_data}

module _ {H : Hashes} {N E : Type 0} (d : Detached H N E) where
  -- What the sender has: the object and all its ancestors, none of which has the hash 0.
  pub record IsWhole : Type 0 where
    pub own : contains_key H d.all_data d.current ≡ true
    pub parents :
        (k : H.RelRcHash) (x : DetachedInnerData H N E)
        → find_data H d.all_data k ≡ some x
        → All (λ e. contains_key H d.all_data e.0 ≡ true) x.incoming
    pub not_zero : (k : H.RelRcHash) → contains_key H d.all_data k ≡ true → H.to_usize k ≢ 0

  -- What the receiver has is the sender's.
  pub record IsPart (r : Detached H N E) : Type 0 where
    pub same : r.current ≡ d.current
    pub present : contains_key H r.all_data r.current ≡ true
    pub entries : All (λ e. find_data H d.all_data e.0 ≡ some e.1) r.all_data

  -- How many objects of the sender the receiver has not
  abbrev pub missing :
      List (H.RelRcHash × DetachedInnerData H N E)
      → List (H.RelRcHash × DetachedInnerData H N E)
      → ℕ
  missing r [] = 0
  missing r ((k, _) ∷ es) = if contains_key H r k then missing r es else suc (missing r es)

  abbrev pub missing_at : Option (Detached H N E) → ℕ
  missing_at none = length d.all_data
  missing_at (some r) = missing r.all_data d.all_data

  -- The next object: the first, or one that the receiver has not.
  abbrev pub Wanted : Option (Detached H N E) → H.RelRcHash → Type 0
  Wanted none k = k ≡ d.current
  Wanted (some r) k = IsPart r × (contains_key H r.all_data k ≡ false)

  missing-insert_data :
      (r es : List (H.RelRcHash × DetachedInnerData H N E)) (k : H.RelRcHash)
      (x : DetachedInnerData H N E)
      → missing (insert_data H r k x) es ≤ missing r es
  missing-insert_data r [] k x = omega arith
  missing-insert_data r ((j, y) ∷ es) k x =
      let fewer = missing-insert_data r es k x in
      let now = contains_key-insert_data H r k x j in
      elim (Bool-cases (contains_key H r j)) [
        | inl there ↦
            let still : contains_key H (insert_data H r k x) j ≡ true = ground arith in
            rw (there, still) fewer
        | inr new ↦ elim (Bool-cases (contains_key H (insert_data H r k x) j)) [
          | inl comes ↦ rw (new, comes) (omega arith)
          | inr not_yet ↦ rw (new, not_yet) (omega arith)
        ]
      ]

  -- An object that comes leaves one less that is missing.
  pub missing-insert_data_less :
      (r es : List (H.RelRcHash × DetachedInnerData H N E)) (k : H.RelRcHash)
      (x : DetachedInnerData H N E)
      → contains_key H es k ≡ true
      → contains_key H r k ≡ false
      → missing (insert_data H r k x) es < missing r es
  missing-insert_data_less r [] k x there new = cc
  missing-insert_data_less r ((j, y) ∷ es) k x there new =
      let fewer = missing-insert_data r es k x in
      let now = contains_key-insert_data H r k x j in
      elim (Bool-cases (hash_eq H j k)) [
        | inl same ↦
            let apart : contains_key H r j ≡ false =
              subst (λ i. contains_key H r i ≡ false) (sym (hash_eq_sound H j k same)) new in
            let comes : contains_key H (insert_data H r k x) j ≡ true = ground arith in
            rw (apart, comes) (omega arith)
        | inr other ↦
            let less = missing-insert_data_less r es k x (rw other at there) new in
            elim (Bool-cases (contains_key H r j)) [
              | inl known ↦
                  let still : contains_key H (insert_data H r k x) j ≡ true = ground arith in
                  rw (known, still) less
              | inr unknown ↦
                  let not_yet : contains_key H (insert_data H r k x) j ≡ false = ground arith in
                  rw (unknown, not_yet) (omega arith)
            ]
      ]

  pub missing-none : (es : List (H.RelRcHash × DetachedInnerData H N E)) → missing [] es ≡ length es
  missing-none [] = refl
  missing-none (e ∷ es) = ground (arith, missing-none es)

  known_from :
      (k : H.RelRcHash) (es : List (H.RelRcHash × E)) (rest : List H.RelRcHash)
      → All (λ e. contains_key H d.all_data e.0 ≡ true) es
      → (Memᴰ k rest → contains_key H d.all_data k ≡ true)
      → Memᴰ k (map (λ e. e.0) es ++ rest)
      → contains_key H d.all_data k ≡ true
  known_from k [] rest known later there = later there
  known_from k ((j, v) ∷ es) rest (known, others) later there = elim (Memᴰ.cases_cons there) [
    | inl here ↦ subst (λ i. contains_key H d.all_data i ≡ true) (sym here) known
    | inr there' ↦ known_from k es rest others later there'
  ]

  -- A parent of an object of the receiver is an object of the sender.
  pub parents-known :
      IsWhole
      → (r : List (H.RelRcHash × DetachedInnerData H N E)) (k : H.RelRcHash)
      → All (λ e. find_data H d.all_data e.0 ≡ some e.1) r
      → Memᴰ k (all_data_parents H r)
      → contains_key H d.all_data k ≡ true
  parents-known whole [] k entries there = absurd (Memᴰ.not-nil there)
  parents-known whole ((j, y) ∷ r) k (entry, entries) there =
      known_from k y.incoming (all_data_parents H r) (whole.parents j y entry)
        (parents-known whole r k entries) there

  All-insert_data :
      (r : List (H.RelRcHash × DetachedInnerData H N E)) (k : H.RelRcHash)
      (x : DetachedInnerData H N E)
      → find_data H d.all_data k ≡ some x
      → All (λ e. find_data H d.all_data e.0 ≡ some e.1) r
      → All (λ e. find_data H d.all_data e.0 ≡ some e.1) (insert_data H r k x)
  All-insert_data [] k x found entries = (found, tt)
  All-insert_data ((j, y) ∷ r) k x found (entry, entries) = elim (Bool-cases (hash_eq H j k)) [
    | inl same ↦ rw same (
      subst (λ i. find_data H d.all_data i ≡ some x) (sym (hash_eq_sound H j k same)) found,
      entries,
    )
    | inr apart ↦ rw apart (entry, All-insert_data r k x found entries)
  ]

  pub insert_object-IsPart :
      (o : Option (Detached H N E)) (k : H.RelRcHash) (x : DetachedInnerData H N E)
      → find_data H d.all_data k ≡ some x
      → Wanted o k
      → IsPart (insert_object o k x)
  unfolding insert_object
  insert_object-IsPart none k x found wanted = record {
    same = wanted;
    present = ground arith;
    entries = (found, tt);
  }
  insert_object-IsPart (some r) k x found (part, new) = record {
    same = part.same;
    present = contains_key-insert_data H r.all_data k x r.current ∙ rw part.present (ground arith);
    entries = All-insert_data r.all_data k x found part.entries;
  }

  -- With the object that comes, less is missing.
  pub insert_object-missing :
      (o : Option (Detached H N E)) (k : H.RelRcHash) (x : DetachedInnerData H N E)
      → contains_key H d.all_data k ≡ true
      → Wanted o k
      → missing_at (some (insert_object o k x)) < missing_at o
  unfolding insert_object
  insert_object-missing none k x there wanted =
      let less = missing-insert_data_less [] d.all_data k x there refl in
      let all = missing-none d.all_data in omega arith
  insert_object-missing (some r) k x there (part, new) =
      missing-insert_data_less r.all_data d.all_data k x there new
