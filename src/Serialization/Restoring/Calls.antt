-- ===== src/Serialization/Restoring/Calls.antt =====
-- `deserialize_node` of src/serialization.rs restores a node after its parents, where the parents of
-- each node are saved and of lower rank.
use relrc.Prelude.{
  ℕ, ◌<◌, ◌≡◌, refl, inl, inr, Option, none, some, List, [], ◌∷◌, arith, All, Option-cases,
}
use mathlib.Core.Option
use relrc.SlotMap.{SlotMaps, SecondaryMaps}
use relrc.Object.{Ptr}
use relrc.Serialization.Format.{SerializedInnerData}
use relrc.Serialization.Restoring.{Restoring, remaining, each_parent}
use relrc.Serialization.Restoring.Restored.{
  Below, IsGood, Moves, Moves-refl, Moves-trans, Present, Present-Moves, found, to_do,
}

module _ {S : SlotMaps} {T : SecondaryMaps S} {N E : Type 0}
    (saved : S.Key → Option (SerializedInnerData S.Key N E)) where
  -- A call returns, goes on from `s` and restores `i`.
  pub record Called (s : Restoring T N E) (i : S.Key) (out : Option (Restoring T N E))
      : Type 0 where
    pub result : Restoring T N E
    pub returned : out ≡ some result
    pub moves : Moves s result
    pub good : IsGood saved result
    pub made : (p : Ptr) × (found result i ≡ some p)
    pub strictly : remaining result < remaining s

  -- The loop over the parents returns and restores them.
  pub record Looped (s : Restoring T N E) (edges : List (S.Key × E))
      (out : Option (Restoring T N E)) : Type 0 where
    pub result : Restoring T N E
    pub returned : out ≡ some result
    pub moves : Moves s result
    pub good : IsGood saved result
    pub made : All (λ e. (p : Ptr) × (found result e.0 ≡ some p)) edges

  module _ (rank : S.Key → ℕ) where
    abbrev pub PresentBelow : Restoring T N E → ℕ → Type 0
    PresentBelow s n =
        (k : S.Key) (u : SerializedInnerData S.Key N E)
        → saved k ≡ some u
        → rank k < n
        → Present s k

    abbrev pub CallsBelow : ℕ → ℕ → (S.Key → Restoring T N E → Option (Restoring T N E)) → Type 0
    CallsBelow n depth call =
        (i : S.Key) (s : Restoring T N E) (v : SerializedInnerData S.Key N E)
        → rank i < n
        → IsGood saved s
        → to_do s i ≡ some v
        → found s i ≡ none
        → PresentBelow s (rank i)
        → remaining s < depth
        → Called s i (call i s)

    pub each_parent-Looped :
        (n depth : ℕ) (call : S.Key → Restoring T N E → Option (Restoring T N E))
        → CallsBelow n depth call
        → (edges : List (S.Key × E)) (s : Restoring T N E) → All (Below saved rank n) edges
        → IsGood saved s
        → PresentBelow s n
        → remaining s < depth
        → Looped s edges (each_parent call edges s)
    unfolding each_parent Option.bind
    each_parent-Looped n depth call calls [] s below good present enough = record {
      result = s;
      returned = refl;
      moves = Moves-refl s;
      good = good;
      made = tt;
    }
    each_parent-Looped n depth call calls ((k, x) ∷ edges) s ((u, listed, lower), below) good
          present enough =
        elim (Option-cases (found s k)) [
          | inr (p, at) ↦
              let rest = each_parent-Looped n depth call calls edges s below good present enough in
              rw (at, each_parent)
                (record {
                  result = rest.result;
                  returned = rest.returned;
                  moves = rest.moves;
                  good = rest.good;
                  made = ((p, rest.moves.kept k p at), rest.made);
                })
          | inl missing ↦ elim (present k u listed lower) [
            | inr (p, at) ↦ absurd (ground arith)
            | inl (v, left) ↦
                let c =
                  calls k s v lower good left missing
                    (λ j w saved_j low. present j w saved_j (omega arith)) enough in
                let rest =
                  each_parent-Looped n depth call calls edges c.result below c.good
                    (λ j w saved_j low. Present-Moves j c.moves (present j w saved_j low))
                    (omega (arith, c.strictly)) in
                rw (missing, each_parent, c.returned)
                  (record {
                    result = rest.result;
                    returned = rest.returned;
                    moves = Moves-trans c.moves rest.moves;
                    good = rest.good;
                    made = ((c.made.0, rest.moves.kept k c.made.0 c.made.1), rest.made);
                  })
          ]
        ]
