-- ===== src/Detached/Visiting/Ending.antt =====
-- `post_order_for_each` of src/detached.rs ends.
use relrc.Prelude.{
  ℕ, zero, suc, ◌+◌, ◌*◌, ◌<◌, ◌≤◌, ◌≡◌, inl, inr, refl, ap, subst, Bool, true, false, some, List,
  [], ◌∷◌, arith, if◌then◌else◌, All, length, Bool-cases,
}
use mathlib.Core.List.{Memᴰ}
use mathlib.Core.List.Memᴰ
use relrc.Detached.{
  DfsEvent, dfs_enter, dfs_exit, seen_in, enter_all, post_order_loop, post_order_for_each,
}

module _ {V : Type 0} (eq : V → V → Bool) (successors : V → List V) (visit : V → Bool) where
  -- An event that enters stands for two rounds.
  abbrev pub weight : List (DfsEvent V) → ℕ
  weight [] = 0
  weight (dfs_enter v ∷ stack) = 2 + weight stack
  weight (dfs_exit v ∷ stack) = 1 + weight stack

  abbrev pub unvisited : List V → List V → ℕ
  unvisited visited [] = 0
  unvisited visited (u ∷ us) =
      (if seen_in eq successors visit visited u then 0 else 1) + unvisited visited us

  unvisited-none : (us : List V) → unvisited [] us ≤ length us
  unvisited-none [] = omega arith
  unvisited-none (u ∷ us) = omega (arith, unvisited-none us)

  unvisited-fewer :
      (u : V) (visited us : List V) → unvisited (u ∷ visited) us ≤ unvisited visited us
  unvisited-fewer u visited [] = omega arith
  unvisited-fewer u visited (v ∷ us) = ground (arith, unvisited-fewer u visited us)

  unvisited-less :
      (u : V) (visited us : List V)
      → Memᴰ u us
      → seen_in eq successors visit visited u ≡ false
      → eq u u ≡ true
      → suc (unvisited (u ∷ visited) us) ≤ unvisited visited us
  unvisited-less u visited [] there new same = absurd (Memᴰ.not-nil there)
  unvisited-less u visited (v ∷ us) there new same = elim (Memᴰ.cases_cons there) [
    | inl here ↦
        let at_v : seen_in eq successors visit visited v ≡ false =
          subst (λ x. seen_in eq successors visit visited x ≡ false) here new in
        let met : eq u v ≡ true = subst (λ x. eq u x ≡ true) here same in
        rw (at_v, met) (omega (arith, unvisited-fewer u visited us))
    | inr later ↦ ground (arith, unvisited-less u visited us later new same)
  ]

  -- What is pushed for the successors was not visited before.
  enter_all-weight :
      (same : (v : V) → eq v v ≡ true) (universe us : List V) (stack : List (DfsEvent V))
      (visited : List V)
      → All (λ u. Memᴰ u universe) us
      → weight (enter_all eq successors visit us stack visited).0
          + 2 * unvisited (enter_all eq successors visit us stack visited).1 universe
        ≤ weight stack + 2 * unvisited visited universe
  enter_all-weight same universe [] stack visited known = omega arith
  enter_all-weight same universe (u ∷ us) stack visited (there, known) =
      elim (Bool-cases (visit u)) [
        | inr out ↦ rw out (enter_all-weight same universe us stack visited known)
        | inl wanted ↦ elim (Bool-cases (seen_in eq successors visit visited u)) [
          | inl old ↦ rw (wanted, old) (enter_all-weight same universe us stack visited known)
          | inr new ↦
              let rest =
                enter_all-weight same universe us (dfs_enter u ∷ stack) (u ∷ visited) known in
              rw (wanted, new)
                (omega (arith, rest, unvisited-less u visited universe there new (same u)))
        ]
      ]

  enter_all_keeps :
      (us : List V) (stack : List (DfsEvent V)) (visited : List V) (x : DfsEvent V)
      → Memᴰ x stack
      → Memᴰ x (enter_all eq successors visit us stack visited).0
  enter_all_keeps [] stack visited x there = there
  enter_all_keeps (u ∷ us) stack visited x there = elim (Bool-cases (visit u)) [
    | inr out ↦ rw out (enter_all_keeps us stack visited x there)
    | inl wanted ↦ elim (Bool-cases (seen_in eq successors visit visited u)) [
      | inl old ↦ rw (wanted, old) (enter_all_keeps us stack visited x there)
      | inr new ↦
          rw (wanted, new)
            (enter_all_keeps us (dfs_enter u ∷ stack) (u ∷ visited) x (Memᴰ.tail there))
    ]
  ]

  -- The calls of a loop that ends
  record Calls (fuel : ℕ) (stack : List (DfsEvent V)) (visited : List V) : Type 0 where
    calls : List V
    returned : post_order_loop eq successors visit fuel stack visited ≡ some calls
    called : (v : V) → Memᴰ (dfs_exit v) stack → Memᴰ v calls
    entered : (v : V) → Memᴰ (dfs_enter v) stack → Memᴰ v calls

  post_order_loop-Calls :
      (same : (v : V) → eq v v ≡ true) (universe : List V)
      (known : (v : V) → All (λ u. Memᴰ u universe) (successors v)) (fuel : ℕ)
      (stack : List (DfsEvent V)) (visited : List V)
      → weight stack + 2 * unvisited visited universe < fuel
      → Calls fuel stack visited
  unfolding post_order_loop
  post_order_loop-Calls same universe known zero stack visited enough = absurd (omega arith)
  post_order_loop-Calls same universe known (suc fuel) [] visited enough = record {
    calls = [];
    returned = refl;
    called = λ v there. absurd (Memᴰ.not-nil there);
    entered = λ v there. absurd (Memᴰ.not-nil there);
  }
  post_order_loop-Calls same universe known (suc fuel) (dfs_enter v ∷ stack) visited enough =
      let pushed = enter_all eq successors visit (successors v) (dfs_exit v ∷ stack) visited in
      let rest = post_order_loop-Calls same universe known fuel pushed.0 pushed.1 (
        omega (
          arith,
          enter_all-weight same universe (successors v) (dfs_exit v ∷ stack) visited (known v),
        )) in
      record {
        calls = rest.calls;
        returned = rest.returned;
        called = λ u there. elim (Memᴰ.cases_cons there) [
          | inl here ↦ absurd cc
          | inr later ↦ rest.called u (
              enter_all_keeps (successors v) (dfs_exit v ∷ stack) visited (dfs_exit u)
                (Memᴰ.tail later))
        ];
        entered = λ u there. elim (Memᴰ.cases_cons there) [
          | inl here ↦
              let same_v : u ≡ v = cc in
              rest.called u (
                enter_all_keeps (successors v) (dfs_exit v ∷ stack) visited (dfs_exit u)
                  (Memᴰ.head (ap (λ x. dfs_exit x) same_v)))
          | inr later ↦ rest.entered u (
              enter_all_keeps (successors v) (dfs_exit v ∷ stack) visited (dfs_enter u)
                (Memᴰ.tail later))
        ];
      }
  post_order_loop-Calls same universe known (suc fuel) (dfs_exit v ∷ stack) visited enough =
      let rest = post_order_loop-Calls same universe known fuel stack visited (omega arith) in
      record {
        calls = v ∷ rest.calls;
        returned = rw rest.returned refl;
        called = λ u there. elim (Memᴰ.cases_cons there) [
          | inl here ↦ Memᴰ.head cc
          | inr later ↦ Memᴰ.tail (rest.called u later)
        ];
        entered = λ u there. elim (Memᴰ.cases_cons there) [
          | inl here ↦ absurd cc
          | inr later ↦ Memᴰ.tail (rest.entered u later)
        ];
      }

-- Where all successors are among finitely many, `post_order_for_each` ends, after two rounds for each
-- of them and three more at most, and it calls `f` with its start.
pub post_order_for_each-ends :
    {V : Type 0} (eq : V → V → Bool) (successors : V → List V) (visit : V → Bool)
    (universe : List V) (fuel : ℕ) (start : V)
    → ((v : V) → eq v v ≡ true)
    → ((v : V) → All (λ u. Memᴰ u universe) (successors v))
    → 2 + 2 * length universe < fuel
    → (calls : List V) × (post_order_for_each eq successors visit fuel start ≡ some calls)
      × Memᴰ start calls
unfolding post_order_for_each
post_order_for_each-ends eq successors visit universe fuel start same known enough =
    let r =
      post_order_loop-Calls eq successors visit same universe known fuel (dfs_enter start ∷ []) []
        (omega (arith, unvisited-none eq successors visit universe)) in
    (r.calls, r.returned, r.entered start (Memᴰ.head refl))
