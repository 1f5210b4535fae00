-- ===== src/Detached/Attaching.antt =====
-- What `attaches_to` of src/detached.rs tells.
use relrc.Prelude.{
  ◌≡◌, ◌↔◌, inl, inr, refl, sym, ap, ◌∙◌, subst, Bool, true, not, ◌||◌, List, [], ◌∷◌, arith, All,
  ==_iff, Bool-cases,
}
use relrc.Object.{Ptr}
use relrc.Mpi.Message.{Hashes}
use relrc.Detached.{
  Detached, contains_key, has, hash_eq, unique_from, all, keep, all_data_parents, required_hashes,
  attaches_to,
}

-- Hashes that go to one number are one hash.
pub hash_eq_sound : (H : Hashes) (a b : H.RelRcHash) → hash_eq H a b ≡ true → a ≡ b
hash_eq_sound H a b e =
    sym (H.from_usize-to_usize a)
    ∙ ap H.from_usize ((==_iff (H.to_usize a) (H.to_usize b)).0 e)
    ∙ H.from_usize-to_usize b

module _ (H : Hashes) (test : H.RelRcHash → Bool) where
  -- A test holds of the hashes without their repetitions as of all, if it holds of those seen.
  all-unique_from :
      (seen ks : List H.RelRcHash)
      → ((k : H.RelRcHash) → has H seen k ≡ true → test k ≡ true)
      → (all H test (unique_from H seen ks) ≡ true) ↔ (all H test ks ≡ true)
  all-unique_from seen [] known = (λ e. e, λ e. e)
  all-unique_from seen (k ∷ ks) known = elim (Bool-cases (has H seen k)) [
    | inl old ↦ rw (old, known k old) (all-unique_from seen ks known)
    | inr new ↦ elim (Bool-cases (test k)) [
      | inl holds ↦
          rw (new, holds)
            (all-unique_from (k ∷ seen) ks (λ j there. elim (Bool-cases (hash_eq H k j)) [
              | inl same ↦ subst (λ i. test i ≡ true) (hash_eq_sound H k j same) holds
              | inr apart ↦ known j (ground (arith, there))
            ]))
      | inr fails ↦ rw (new, fails) (λ e. e, λ e. e)
    ]
  ]

  all-keep :
      (own : H.RelRcHash → Bool) (ks : List H.RelRcHash)
      → (all H test (keep H (λ k. not (own k)) ks) ≡ true) ↔ All (λ k. (own k || test k) ≡ true) ks
  all-keep own [] = (λ e. tt, λ e. refl)
  all-keep own (k ∷ ks) =
      let (forth, back) = all-keep own ks in
      elim (Bool-cases (own k)) [
        | inl there ↦ rw (there, keep) (λ e. (refl, forth e), λ e. back e.1)
        | inr out ↦ elim (Bool-cases (test k)) [
          | inl holds ↦ rw (out, keep, holds) (λ e. (refl, forth e), λ e. back e.1)
          | inr fails ↦
              rw (out, keep, fails) (λ e. absurd (ground arith), λ e. absurd (ground (arith, e.0)))
        ]
      ]

-- `attaches_to` answers yes exactly if each parent of each of the objects that are sent is sent too
-- or is there already.
pub attaches_to_iff :
    (H : Hashes) {N E : Type 0} (d : Detached H N E) (attach_to : List (H.RelRcHash × Ptr))
    → (attaches_to H d attach_to ≡ true)
      ↔ All
          (λ hash. (contains_key H d.all_data hash || contains_key H attach_to hash) ≡ true)
          (all_data_parents H d.all_data)
unfolding attaches_to required_hashes
attaches_to_iff H d attach_to =
    let test : H.RelRcHash → Bool = contains_key H attach_to in
    let (a, b) =
      all-unique_from H test []
        (keep H (λ k. not (contains_key H d.all_data k)) (all_data_parents H d.all_data))
        (λ k e. absurd (ground arith)) in
    let (c, e) = all-keep H test (contains_key H d.all_data) (all_data_parents H d.all_data) in
    (λ x. c (a x), λ x. b (e x))
