-- ===== src/Detached.antt =====
-- src/detached.rs: objects taken out of memory, and what is needed to attach them again. A `BTreeMap`
-- is the list of its entries, and a `BTreeSet` of its elements: their order, which is that of the
-- hashes, is not modelled. Hashes are compared by the numbers that they go to.
pub mod Attaching
pub mod Building
pub mod Detaching
pub mod Visiting
use relrc.Prelude.{
  ℕ, zero, suc, Bool, true, false, not, Option, none, some, List, [], ◌∷◌, ◌++◌, map, ◌==◌,
  if◌then◌else◌, length,
}
use relrc.Object.{InnerData, InnerEdgeData, Heap, Ptr, deref}
use relrc.Drop.{parents_of}
use relrc.Mpi.Message.{Hashes}
use relrc.Mpi.Transfer.{DetachedInnerData}

module _ (H : Hashes) where
  abbrev pub hash_eq : H.RelRcHash → H.RelRcHash → Bool
  hash_eq a b = H.to_usize a == H.to_usize b

  -- `contains` of a set
  abbrev pub has : List H.RelRcHash → H.RelRcHash → Bool
  has [] k = false
  has (a ∷ set) k = if hash_eq a k then true else has set k

  -- `contains_key` of a map
  abbrev pub contains_key : {A : Type 0} → List (H.RelRcHash × A) → H.RelRcHash → Bool
  contains_key [] k = false
  contains_key ((a, _) ∷ entries) k = if hash_eq a k then true else contains_key entries k

  -- `Detached`
  pub record Detached (N E : Type 0) : Type 0 where
    pub current : H.RelRcHash
    pub all_data : List (H.RelRcHash × DetachedInnerData H N E)

  -- `Itertools::unique`, from what was seen on
  abbrev pub unique_from : List H.RelRcHash → List H.RelRcHash → List H.RelRcHash
  unique_from seen [] = []
  unique_from seen (k ∷ ks) =
      let rest = unique_from (k ∷ seen) ks in if has seen k then unique_from seen ks else k ∷ rest

  abbrev pub all : (H.RelRcHash → Bool) → List H.RelRcHash → Bool
  all test [] = true
  all test (k ∷ ks) = if test k then all test ks else false

  abbrev pub keep : (H.RelRcHash → Bool) → List H.RelRcHash → List H.RelRcHash
  keep test [] = []
  keep test (k ∷ ks) = if test k then k ∷ keep test ks else keep test ks

  module _ {N E : Type 0} where
    -- `DetachedInnerData::parents`
    abbrev pub data_parents : DetachedInnerData H N E → List H.RelRcHash
    data_parents inner = map (λ e. e.0) inner.incoming

    abbrev pub all_data_parents : List (H.RelRcHash × DetachedInnerData H N E) → List H.RelRcHash
    all_data_parents [] = []
    all_data_parents ((_, inner) ∷ entries) = data_parents inner ++ all_data_parents entries

    -- `Detached::required_hashes`
    unfoldable pub required_hashes : Detached N E → List H.RelRcHash
    required_hashes d =
        unique_from []
          (keep (λ hash. not (contains_key d.all_data hash)) (all_data_parents d.all_data))

    -- `Detached::attaches_to`
    unfoldable pub attaches_to : Detached N E → List (H.RelRcHash × Ptr) → Bool
    unfolding required_hashes
    attaches_to d attach_to = all (λ hash. contains_key attach_to hash) (required_hashes d)

    -- `Detached::empty`
    unfoldable pub empty : H.RelRcHash → Detached N E
    empty current = record { current = current; all_data = [] }

    -- `Detached::n_ancestors`
    unfoldable pub n_ancestors : Detached N E → ℕ
    n_ancestors d = length d.all_data

-- `DfsEvent`
pub data DfsEvent (V : Type 0) : Type 0 where
  dfs_enter dfs_exit : V → DfsEvent V

module _ {V : Type 0} (eq : V → V → Bool) (successors : V → List V) (visit : V → Bool) where
  abbrev seen_in : List V → V → Bool
  seen_in [] v = false
  seen_in (u ∷ visited) v = if eq u v then true else seen_in visited v

  -- The loop over the successors: the stack, whose head is its top, and `visited`.
  abbrev enter_all : List V → List (DfsEvent V) → List V → List (DfsEvent V) × List V
  enter_all [] stack visited = (stack, visited)
  enter_all (u ∷ us) stack visited =
      let skip = enter_all us stack visited in
      let push = enter_all us (DfsEvent.dfs_enter u ∷ stack) (u ∷ visited) in
      if visit u then (if seen_in visited u then skip else push) else skip

  -- The `while` loop of `post_order_for_each`, with the calls of `f` in order; `none` if the fuel runs
  -- out.
  unfoldable pub post_order_loop : ℕ → List (DfsEvent V) → List V → Option (List V)
  post_order_loop zero stack visited = none
  post_order_loop (suc fuel) [] visited = some []
  post_order_loop (suc fuel) (DfsEvent.dfs_enter v ∷ stack) visited =
      let (stack', visited') = enter_all (successors v) (DfsEvent.dfs_exit v ∷ stack) visited in
      post_order_loop fuel stack' visited'
  post_order_loop (suc fuel) (DfsEvent.dfs_exit v ∷ stack) visited =
      elim (post_order_loop fuel stack visited) [ none ↦ none | some calls ↦ some (v ∷ calls) ]

  unfoldable pub post_order_for_each : ℕ → V → Option (List V)
  unfolding post_order_loop
  post_order_for_each fuel start = post_order_loop fuel (DfsEvent.dfs_enter start ∷ []) []
