-- ===== src/Resolver.antt =====
-- src/resolver.rs: resolvers, which say when two nodes are equivalent, and the resolver of its tests.
-- A `Hash` of keys is not modelled; `==` of keys is `key_eq`.
pub mod Merging
use Prim.Native.String.{String}
use relrc.Prelude.{ℕ, Bool, ◌==◌, true, false, List, if◌then◌else◌}

-- `Result`
pub data Result (A X : Type 0) : Type 0 where
  ok : A → Result A X
  err : X → Result A X

-- `NotEquivalent`
pub data NotEquivalent : Type 0 where
  not_equivalent : NotEquivalent

-- `EquivalenceResolver`
pub record EquivalenceResolver (N E : Type 0) : Type 1 where
  pub MergeMapping : Type 0
  pub DedupKey : Type 0
  pub key_eq : DedupKey → DedupKey → Bool
  pub id : String
  pub dedup_key : N → List E → DedupKey
  pub try_merge_mapping : N → List E → N → List E → Result MergeMapping NotEquivalent
  pub move_edge_source : MergeMapping → E → E

-- `ResolverId`, whose type says which resolver it is of.
pub record ResolverId {N E : Type 0} (R : EquivalenceResolver N E) : Type 0 where
  pub id : String

-- `ResolverId::from`
unfoldable pub from : {N E : Type 0} (R : EquivalenceResolver N E) → ResolverId R
from R = record { id = R.id }

-- `String::from`
unfoldable pub into_string : {N E : Type 0} {R : EquivalenceResolver N E} → ResolverId R → String
into_string i = i.id

-- `InvalidResolver`
pub record InvalidResolver : Type 0 where
  pub found : String
  pub expected : String

-- `TestResolver`
unfoldable pub dedup_key : ℕ × ℕ → List ℕ → ℕ
dedup_key value incoming_edges = value.0

unfoldable pub try_merge_mapping : ℕ × ℕ → List ℕ → ℕ × ℕ → List ℕ → Result ℕ NotEquivalent
try_merge_mapping a_value a_incoming_edges b_value b_incoming_edges =
    if a_value.0 == b_value.0 then ok b_value.1 else err not_equivalent

unfoldable pub move_edge_source : ℕ → ℕ → ℕ
move_edge_source mapping edge = mapping

unfoldable pub test_resolver : EquivalenceResolver (ℕ × ℕ) ℕ
unfolding dedup_key try_merge_mapping move_edge_source
test_resolver = record {
  MergeMapping = ℕ;
  DedupKey = ℕ;
  key_eq = ◌==◌;
  id = "test_resolver";
  dedup_key = dedup_key;
  try_merge_mapping = try_merge_mapping;
  move_edge_source = move_edge_source;
}
