-- ===== src/Tests/Resolving.antt =====
-- src/resolver.rs, test_resolver_equivalence and test_resolver_edge_update.
use relrc.Prelude.{◌≡◌, refl, []}
use relrc.Resolver.{
  ok, err, not_equivalent, try_merge_mapping, move_edge_source, test_resolver, from, into_string,
}

resolver_equivalence :
    (try_merge_mapping (1, 2) [] (1, 3) [] ≡ ok 3)
    × (try_merge_mapping (1, 2) [] (2, 2) [] ≡ err not_equivalent)
unfolding try_merge_mapping
resolver_equivalence = (refl, refl)

resolver_edge_update : move_edge_source 5 10 ≡ 5
unfolding move_edge_source
resolver_edge_update = refl

resolver_name : into_string (from test_resolver) ≡ "test_resolver"
unfolding from into_string test_resolver
resolver_name = refl
