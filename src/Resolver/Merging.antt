-- ===== src/Resolver/Merging.antt =====
-- What src/resolver.rs asks of a resolver, and that the resolver of its tests does it.
use relrc.Prelude.{
  ℕ, ◌≡◌, ◌↔◌, inl, inr, refl, sym, ap, ◌∙◌, true, List, arith, ==_iff, ◌==◌, Bool-cases,
}
use relrc.Resolver.{
  EquivalenceResolver, ok, dedup_key, try_merge_mapping, move_edge_source, test_resolver,
}

-- Nodes that are merged have one key, so that grouping nodes by keys loses none; merging is an
-- equivalence; and it makes no difference in how many steps an edge is moved.
pub record IsLawful {N E : Type 0} (R : EquivalenceResolver N E) : Type 0 where
  pub same_key :
      (a b : N) (es fs : List E) (m : R.MergeMapping)
      → R.try_merge_mapping a es b fs ≡ ok m
      → R.key_eq (R.dedup_key a es) (R.dedup_key b fs) ≡ true
  pub reflexive :
      (a : N) (es : List E) → (m : R.MergeMapping) × (R.try_merge_mapping a es a es ≡ ok m)
  pub symmetric :
      (a b : N) (es fs : List E) (m : R.MergeMapping)
      → R.try_merge_mapping a es b fs ≡ ok m
      → (n : R.MergeMapping) × (R.try_merge_mapping b fs a es ≡ ok n)
  pub composes :
      (a b c : N) (es fs gs : List E) (m n : R.MergeMapping)
      → R.try_merge_mapping a es b fs ≡ ok m
      → R.try_merge_mapping b fs c gs ≡ ok n
      → (o : R.MergeMapping) × (R.try_merge_mapping a es c gs ≡ ok o)
        × ((e : E) → R.move_edge_source n (R.move_edge_source m e) ≡ R.move_edge_source o e)

merged_iff :
    (a b : ℕ × ℕ) (es fs : List ℕ) (m : ℕ)
    → (try_merge_mapping a es b fs ≡ ok m) ↔ ((a.0 ≡ b.0) × (m ≡ b.1))
unfolding try_merge_mapping
merged_iff a b es fs m = elim (Bool-cases (a.0 == b.0)) [
  | inl same ↦ (
    λ e. ((==_iff a.0 b.0).0 same, ground arith),
    λ (_, e). rw (try_merge_mapping, same) (ap (λ x. ok x) (sym e)),
  )
  | inr apart ↦ (λ e. absurd (ground arith), λ (e, _). absurd (ground arith))
]

-- The resolver of the tests is lawful.
pub test_resolver-IsLawful : IsLawful test_resolver
unfolding test_resolver dedup_key move_edge_source
test_resolver-IsLawful = record {
  same_key = λ a b es fs m e. (==_iff a.0 b.0).1 ((merged_iff a b es fs m).0 e).0;
  reflexive = λ a es. (a.1, (merged_iff a a es es a.1).1 (refl, refl));
  symmetric = λ a b es fs m e.
      (a.1, (merged_iff b a fs es a.1).1 (sym ((merged_iff a b es fs m).0 e).0, refl));
  composes = λ a b c es fs gs m n e f.
      let (ab, mb) = (merged_iff a b es fs m).0 e in
      let (bc, nc) = (merged_iff b c fs gs n).0 f in
      (n, (merged_iff a c es gs n).1 (ab ∙ bc, nc), λ edge. refl);
}
