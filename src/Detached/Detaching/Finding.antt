-- ===== src/Detached/Detaching/Finding.antt =====
-- `ancestors_upto` of src/detached.rs ends, and finds all ancestors up to the given ones.
use relrc.Prelude.{
  ℕ, zero, suc, ◌+◌, ◌<◌, ◌≡◌, ◌⊎◌, inl, inr, refl, sym, ap, ◌∙◌, subst, true, false, ◌||◌, some,
  List, [], ◌∷◌, arith, ◌==◌, ==_iff, ltb, count, length, Bool-cases,
}
use mathlib.Core.List.{Memᴰ}
use mathlib.Core.List.Memᴰ
use relrc.Object.{Ptr, Heap, strong_count, deref}
use relrc.Drop.{parents_of}
use relrc.Counts.{IsCounted}
use relrc.Counts.Dropping.{parents-sources}
use relrc.Counts.Reach.{count-le-edge_refs}
use relrc.Mpi.Message.{Hashes}
use relrc.Detached.{has, contains_key}
use relrc.Detached.Detaching.{push_all, ancestors_loop}
use relrc.Detached.Detaching.Reaching.{Upto, Next-Upto, AllNext, push_all-AllNext}
use relrc.Detached.Detaching.Counting.{
  count-push_all, length-push_all, edges_left, edges_left-found,
}

module _ (H : Hashes) {N E : Type 0} (h : Heap N E) (hash_id : Ptr → H.RelRcHash)
    (detach_from : List H.RelRcHash) (obj : Ptr) {roots : List Ptr} (c : IsCounted roots h) where
  -- A node that was found, or that the detached object is detached from
  abbrev pub Known : List (H.RelRcHash × Ptr) → Ptr → Type 0
  Known m q = (contains_key H m (hash_id q) || has H detach_from (hash_id q)) ≡ true

  -- What was found is alive and an ancestor of the object up to `detach_from`, and stands under its
  -- hash; its parents are known or on the stack.
  pub record IsFound (stack : List Ptr) (m : List (H.RelRcHash × Ptr)) (k : H.RelRcHash) (p : Ptr)
      : Type 0 where
    pub hash : hash_id p ≡ k
    pub alive : 0 < strong_count h p
    pub upto : Upto H h hash_id detach_from obj p
    pub parents : (q : Ptr) → 0 < count q (parents_of (deref h p)) → Known m q ⊎ (0 < count q stack)

  abbrev pub Fine : List Ptr → List (H.RelRcHash × Ptr) → Type 0
  Fine stack m = (k : H.RelRcHash) (p : Ptr) → Memᴰ (k, p) m → IsFound stack m k p

  abbrev pub Alive : List Ptr → Type 0
  Alive stack = (q : Ptr) → 0 < count q stack → 0 < strong_count h q

  parent-Alive : (p : Ptr) → Alive (parents_of (deref h p))
  parent-Alive p q edge =
      let there = subst (λ qs. 0 < count q qs) (parents-sources p c) edge in
      omega (arith, there, count-le-edge_refs h q p, c.counted q)

  push_Alive :
      (p : Ptr) (stack : List Ptr)
      → Alive (p ∷ stack)
      → Alive (push_all (parents_of (deref h p)) stack)
  push_Alive p stack alive q there = elim (Bool-cases (ltb 0 (count q stack))) [
    | inl on_stack ↦ alive q (ground arith)
    | inr off ↦ parent-Alive p q (ground (arith, count-push_all q (parents_of (deref h p)) stack))
  ]

  other_count :
      (q p : Ptr) (stack : List Ptr)
      → (q == p) ≡ false
      → 0 < count q (p ∷ stack)
      → 0 < count q stack
  other_count q p stack apart there = ground arith

  pub record Ended (stack : List Ptr) (m : List (H.RelRcHash × Ptr)) (fuel : ℕ) : Type 0 where
    pub all_nodes : List (H.RelRcHash × Ptr)
    pub returned : ancestors_loop H h hash_id fuel detach_from stack m ≡ some all_nodes
    pub kept : (k : H.RelRcHash) → contains_key H m k ≡ true → contains_key H all_nodes k ≡ true
    pub covered : (q : Ptr) → 0 < count q stack → Known all_nodes q
    pub fine : Fine [] all_nodes

  skip-Fine :
      (p : Ptr) (stack : List Ptr) (m : List (H.RelRcHash × Ptr))
      → Known m p
      → Fine (p ∷ stack) m
      → Fine stack m
  skip-Fine p stack m known fine k n there =
      let f = fine k n there in
      record {
        hash = f.hash;
        alive = f.alive;
        upto = f.upto;
        parents = λ q edge. elim (Bool-cases (q == p)) [
          | inl same ↦ inl (subst (Known m) (sym ((==_iff q p).0 same)) known)
          | inr apart ↦ ground (arith, f.parents q edge)
        ];
      }

  Known-own : (p : Ptr) (m : List (H.RelRcHash × Ptr)) → Known ((hash_id p, p) ∷ m) p
  Known-own p m = ground arith

  visit-Fine :
      (p : Ptr) (stack : List Ptr) (m : List (H.RelRcHash × Ptr))
      → 0 < strong_count h p
      → Upto H h hash_id detach_from obj p
      → Fine (p ∷ stack) m
      → Fine (push_all (parents_of (deref h p)) stack) ((hash_id p, p) ∷ m)
  visit-Fine p stack m alive upto fine k n there = elim (Memᴰ.cases_cons there) [
    | inl here ↦
        let same : n ≡ p = ap (λ e. e.1) here in
        record {
          hash = ap hash_id same ∙ sym (ap (λ e. e.0) here);
          alive = subst (λ a. 0 < strong_count h a) (sym same) alive;
          upto = subst (λ a. Upto H h hash_id detach_from obj a) (sym same) upto;
          parents = λ q edge.
              let edge' = subst (λ a. 0 < count q (parents_of (deref h a))) same edge in
              inr (omega (arith, edge', count-push_all q (parents_of (deref h p)) stack));
        }
    | inr later ↦
        let f = fine k n later in
        record {
          hash = f.hash;
          alive = f.alive;
          upto = f.upto;
          parents = λ q edge. elim (Bool-cases (q == p)) [
            | inl same ↦
                inl (subst (Known ((hash_id p, p) ∷ m)) (sym ((==_iff q p).0 same)) (Known-own p m))
            | inr apart ↦
                ground (arith, f.parents q edge, count-push_all q (parents_of (deref h p)) stack)
          ];
        }
  ]

  pub ancestors_loop-Ended :
      (fuel : ℕ) (stack : List Ptr) (m : List (H.RelRcHash × Ptr))
      → Alive stack
      → AllNext H h hash_id detach_from obj stack
      → Fine stack m
      → length stack + edges_left H hash_id m 0 h < fuel
      → Ended stack m fuel
  unfolding ancestors_loop
  ancestors_loop-Ended zero stack m alive next fine enough = absurd (omega arith)
  ancestors_loop-Ended (suc fuel) [] m alive next fine enough = record {
    all_nodes = m;
    returned = refl;
    kept = λ k there. there;
    covered = λ q there. absurd (omega arith);
    fine = fine;
  }
  ancestors_loop-Ended (suc fuel) (p ∷ stack) m alive next fine enough =
      elim (Bool-cases (contains_key H m (hash_id p) || has H detach_from (hash_id p))) [
        | inl known ↦
            let r =
              ancestors_loop-Ended fuel stack m (λ q there. alive q (omega arith))
                (λ q there. next q (omega arith)) (skip-Fine p stack m known fine) (omega arith) in
            record {
              all_nodes = r.all_nodes;
              returned = rw (ancestors_loop, known) r.returned;
              kept = r.kept;
              covered = λ q there. elim (Bool-cases (q == p)) [
                | inl same ↦
                    subst (Known r.all_nodes) (sym ((==_iff q p).0 same))
                      (ground (arith, r.kept (hash_id p)))
                | inr apart ↦ r.covered q (ground arith)
              ];
              fine = r.fine;
            }
        | inr new ↦
            let parents = parents_of (deref h p) in
            let new_key : contains_key H m (hash_id p) ≡ false = ground arith in
            let own = alive p (ground arith) in
            let apart : has H detach_from (hash_id p) ≡ false = ground arith in
            let upto = Next-Upto H h hash_id detach_from obj (next p (ground arith)) apart in
            let fewer = edges_left-found H hash_id m p 0 p h (omega arith) new_key in
            let r =
              ancestors_loop-Ended fuel (push_all parents stack) ((hash_id p, p) ∷ m)
                (λ q there. push_Alive p stack alive q there)
                (push_all-AllNext H h hash_id detach_from obj p stack next apart)
                (visit-Fine p stack m own upto fine)
                (omega (
                  arith,
                  fewer,
                  length-push_all parents stack,
                  ap (λ (qs : List Ptr). length qs) (parents-sources p c),
                )) in
            record {
              all_nodes = r.all_nodes;
              returned = rw (ancestors_loop, new) r.returned;
              kept = λ k there. r.kept k (ground arith);
              covered = λ q there. elim (Bool-cases (q == p)) [
                | inl same ↦
                    subst (Known r.all_nodes) (sym ((==_iff q p).0 same))
                      (ground (arith, r.kept (hash_id p)))
                | inr apart ↦ r.covered q (
                    omega
                      (arith, other_count q p stack apart there, count-push_all q parents stack))
              ];
              fine = r.fine;
            }
      ]
