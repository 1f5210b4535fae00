-- ===== src/SlotMap/Inserting.antt =====
-- `SecondaryMap::insert` at a key that is alone in its slot: a map from keys.
use relrc.Prelude.{
  ◌≡◌, ◌≢◌, sym, ◌∙◌, subst, inl, inr, some, arith, ◌==◌, ==_iff, if◌then◌else◌, Option-cases,
  Bool-cases,
}
use relrc.SlotMap.{SlotMaps, SecondaryMaps}

module _ {S : SlotMaps} (T : SecondaryMaps S) {V : Type 0} (m : T.SecondaryMap V) (i : S.Key)
    (alone : (k : S.Key) (u : V) → T.get V m k ≡ some u → S.slot k ≡ S.slot i → k ≡ i) where
  pub get-insert_alone :
      (j : S.Key) (v : V)
      → T.get V (T.insert V m i v) j ≡ (if S.key_eq i j then some v else T.get V m j)
  get-insert_alone j v = elim (Bool-cases (S.key_eq i j)) [
    | inl same ↦ rw same (
        subst (λ k. T.get V (T.insert V m i v) k ≡ some v) ((S.key_eq_iff i j).0 same)
          (T.get-insert_self V m i v alone))
    | inr apart ↦
        let other : i ≢ j = λ e. ground (arith, S.key_eq_iff i j) in
        rw apart (elim (Bool-cases (S.slot i == S.slot j)) [
          | inl one ↦
              let slots_eq = (==_iff (S.slot i) (S.slot j)).0 one in
              elim (Option-cases (T.get V m j)) [
                | inl gone ↦ T.get-insert_same V m i j v alone slots_eq other ∙ sym gone
                | inr (u, there) ↦ absurd (other (sym (alone j u there (sym slots_eq))))
              ]
          | inr two ↦
              T.get-insert_other V m i j v (λ e. ground (arith, ==_iff (S.slot i) (S.slot j)))
        ])
  ]
