-- ===== src/Detached/Visiting/Once.antt =====
-- `post_order_for_each` of src/detached.rs calls `f` once at most with each vertex. Vertices are
-- compared by the numbers that they go to.
use relrc.Prelude.{
  ℕ, zero, suc, ◌+◌, ◌≤◌, ◌≡◌, ◌≢◌, inl, inr, refl, subst, Bool, true, some, List, [], ◌∷◌, map,
  arith, if◌then◌else◌, ◌==◌, ==_iff, All, count, mem, Bool-cases, Option-cases,
}
use relrc.Detached.{
  DfsEvent, dfs_enter, dfs_exit, seen_in, enter_all, post_order_loop, post_order_for_each,
}

module _ {V : Type 0} (key : V → ℕ) where
  abbrev by_key : V → V → Bool
  by_key a b = key a == key b

  abbrev vertex : DfsEvent V → V
  vertex (dfs_enter v) = v
  vertex (dfs_exit v) = v

  -- How often the stack has an event for the vertex with key `n`
  abbrev events : ℕ → List (DfsEvent V) → ℕ
  events n [] = 0
  events n (e ∷ stack) = (if n == key (vertex e) then 1 else 0) + events n stack

module _ {V : Type 0} (key : V → ℕ) (successors : V → List V) (visit : V → Bool) where
  seen_in-mem :
      (visited : List V) (v : V)
      → seen_in (by_key key) successors visit visited v ≡ mem (key v) (map key visited)
  seen_in-mem [] v = refl
  seen_in-mem (u ∷ visited) v = ground (arith, seen_in-mem visited v)

  -- An event for a vertex is pushed only as it is visited first.
  enter_all-events :
      (n : ℕ) (us : List V) (stack : List (DfsEvent V)) (visited : List V)
      → let (stack', visited') = enter_all (by_key key) successors visit us stack visited in
        events key n stack' + (if mem n (map key visited') then 0 else 1)
        ≤ events key n stack + (if mem n (map key visited) then 0 else 1)
  enter_all-events n [] stack visited = omega arith
  enter_all-events n (u ∷ us) stack visited = elim (Bool-cases (visit u)) [
    | inr out ↦ rw out (enter_all-events n us stack visited)
    | inl wanted ↦ elim (Bool-cases (seen_in (by_key key) successors visit visited u)) [
      | inl old ↦ rw (wanted, old) (enter_all-events n us stack visited)
      | inr new ↦
          let rest = enter_all-events n us (dfs_enter u ∷ stack) (u ∷ visited) in
          let absent = seen_in-mem visited u in rw (wanted, new) (ground arith)
    ]
  ]

  enter_all-none :
      (n : ℕ) (us : List V) (stack : List (DfsEvent V)) (visited : List V)
      → All (λ u. key u ≢ n) us
      → events key n (enter_all (by_key key) successors visit us stack visited).0
        ≡ events key n stack
  enter_all-none n [] stack visited never = refl
  enter_all-none n (u ∷ us) stack visited (other, never) = elim (Bool-cases (visit u)) [
    | inr out ↦ rw out (enter_all-none n us stack visited never)
    | inl wanted ↦ elim (Bool-cases (seen_in (by_key key) successors visit visited u)) [
      | inl old ↦ rw (wanted, old) (enter_all-none n us stack visited never)
      | inr new ↦
          let rest = enter_all-none n us (dfs_enter u ∷ stack) (u ∷ visited) never in
          rw (wanted, new) (ground arith)
    ]
  ]

  enter_all-All {κ} :
      (P : V → Type κ)
      → ((u : V) → visit u ≡ true → P u)
      → (us : List V) (stack : List (DfsEvent V)) (visited : List V)
      → All (λ e. P (vertex key e)) stack
      → All (λ e. P (vertex key e)) (enter_all (by_key key) successors visit us stack visited).0
  enter_all-All P keep [] stack visited known = known
  enter_all-All P keep (u ∷ us) stack visited known = elim (Bool-cases (visit u)) [
    | inr out ↦ rw out (enter_all-All P keep us stack visited known)
    | inl wanted ↦ elim (Bool-cases (seen_in (by_key key) successors visit visited u)) [
      | inl old ↦ rw (wanted, old) (enter_all-All P keep us stack visited known)
      | inr new ↦
          rw (wanted, new)
            (enter_all-All P keep us (dfs_enter u ∷ stack) (u ∷ visited) (keep u wanted, known))
    ]
  ]

  -- The calls of a loop that ends are among the events of the stack and the vertices not yet visited.
  post_order_loop-events :
      (n fuel : ℕ) (stack : List (DfsEvent V)) (visited calls : List V)
      → post_order_loop (by_key key) successors visit fuel stack visited ≡ some calls
      → count n (map key calls) ≤ events key n stack + (if mem n (map key visited) then 0 else 1)
  unfolding post_order_loop
  post_order_loop-events n zero stack visited calls e = cc
  post_order_loop-events n (suc fuel) [] visited calls e = ground arith
  post_order_loop-events n (suc fuel) (dfs_enter v ∷ stack) visited calls e =
      let pushed =
        enter_all (by_key key) successors visit (successors v) (dfs_exit v ∷ stack) visited in
      omega (
        arith,
        post_order_loop-events n fuel pushed.0 pushed.1 calls e,
        enter_all-events n (successors v) (dfs_exit v ∷ stack) visited,
      )
  post_order_loop-events n (suc fuel) (dfs_exit v ∷ stack) visited calls e =
      elim (Option-cases (post_order_loop (by_key key) successors visit fuel stack visited)) [
        | inl gone ↦ absurd (ground arith)
        | inr (rest, e') ↦ ground (arith, post_order_loop-events n fuel stack visited rest e')
      ]

  -- A vertex that is no successor is not called but for the events that the stack has for it.
  post_order_loop-none :
      (n : ℕ)
      → ((v : V) → All (λ u. key u ≢ n) (successors v))
      → (fuel : ℕ) (stack : List (DfsEvent V)) (visited calls : List V)
      → post_order_loop (by_key key) successors visit fuel stack visited ≡ some calls
      → count n (map key calls) ≤ events key n stack
  unfolding post_order_loop
  post_order_loop-none n never zero stack visited calls e = cc
  post_order_loop-none n never (suc fuel) [] visited calls e = ground arith
  post_order_loop-none n never (suc fuel) (dfs_enter v ∷ stack) visited calls e =
      let pushed =
        enter_all (by_key key) successors visit (successors v) (dfs_exit v ∷ stack) visited in
      omega (
        arith,
        post_order_loop-none n never fuel pushed.0 pushed.1 calls e,
        enter_all-none n (successors v) (dfs_exit v ∷ stack) visited (never v),
      )
  post_order_loop-none n never (suc fuel) (dfs_exit v ∷ stack) visited calls e =
      elim (Option-cases (post_order_loop (by_key key) successors visit fuel stack visited)) [
        | inl gone ↦ absurd (ground arith)
        | inr (rest, e') ↦ ground (arith, post_order_loop-none n never fuel stack visited rest e')
      ]

  post_order_loop-All {κ} :
      (P : V → Type κ)
      → ((u : V) → visit u ≡ true → P u)
      → (fuel : ℕ) (stack : List (DfsEvent V)) (visited calls : List V)
      → post_order_loop (by_key key) successors visit fuel stack visited ≡ some calls
      → All (λ e. P (vertex key e)) stack
      → All P calls
  unfolding post_order_loop
  post_order_loop-All P keep zero stack visited calls e known = absurd cc
  post_order_loop-All P keep (suc fuel) [] visited calls e known =
      let same : [] ≡ calls = cc in subst (λ vs. All P vs) same tt
  post_order_loop-All P keep (suc fuel) (dfs_enter v ∷ stack) visited calls e known =
      let pushed =
        enter_all (by_key key) successors visit (successors v) (dfs_exit v ∷ stack) visited in
      post_order_loop-All P keep fuel pushed.0 pushed.1 calls e
        (enter_all-All P keep (successors v) (dfs_exit v ∷ stack) visited known)
  post_order_loop-All P keep (suc fuel) (dfs_exit v ∷ stack) visited calls e (own, known) =
      elim (Option-cases (post_order_loop (by_key key) successors visit fuel stack visited)) [
        | inl gone ↦ absurd (ground arith)
        | inr (rest, e') ↦
            let same : v ∷ rest ≡ calls = ground arith in
            subst (λ vs. All P vs) same
              (own, post_order_loop-All P keep fuel stack visited rest e' known)
      ]

  -- Where the start is no successor, `f` is called with each vertex once at most, and with the start
  -- and such vertices only that `visit` takes.
  pub post_order_for_each-once {κ} :
      (P : V → Type κ)
      → ((u : V) → visit u ≡ true → P u)
      → (fuel : ℕ) (start : V) (calls : List V) → P start
      → ((v : V) → All (λ u. key u ≢ key start) (successors v))
      → post_order_for_each (by_key key) successors visit fuel start ≡ some calls
      → ((n : ℕ) → count n (map key calls) ≤ 1) × All P calls
  unfolding post_order_for_each
  post_order_for_each-once P keep fuel start calls own never e = (
    λ n. elim (Bool-cases (n == key start)) [
      | inl same ↦
          let is : n ≡ key start = (==_iff n (key start)).0 same in
          let few = post_order_loop-none (key start) never fuel (dfs_enter start ∷ []) [] calls e in
          rw is (ground arith)
      | inr apart ↦ ground (arith, post_order_loop-events n fuel (dfs_enter start ∷ []) [] calls e)
    ],
    post_order_loop-All P keep fuel (dfs_enter start ∷ []) [] calls e (own, tt),
  )
