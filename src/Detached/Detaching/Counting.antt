-- ===== src/Detached/Detaching/Counting.antt =====
-- The work that is left for the loop of `ancestors_upto` (src/detached.rs).
use relrc.Prelude.{
  ℕ, zero, suc, ◌+◌, ◌≤◌, ◌≡◌, refl, sym, ap, subst, true, false, List, [], ◌∷◌, arith,
  if◌then◌else◌, count, length, get_elem?,
}
use relrc.Object.{Ptr, InnerEdgeData, Heap, sources}
use relrc.Counts.{box_sources}
use relrc.Mpi.Message.{Hashes}
use relrc.Detached.{hash_eq, contains_key}
use relrc.Detached.Detaching.{push_all, edge_total}

pub count-push_all :
    (q : Ptr) (ps stack : List Ptr) → count q (push_all ps stack) ≡ count q ps + count q stack
count-push_all q [] stack = omega arith
count-push_all q (p ∷ ps) stack = omega (arith, count-push_all q ps (p ∷ stack))

pub length-push_all : (ps stack : List Ptr) → length (push_all ps stack) ≡ length ps + length stack
length-push_all [] stack = omega arith
length-push_all (p ∷ ps) stack = omega (arith, length-push_all ps (p ∷ stack))

length-sources : {E : Type 0} (es : List (InnerEdgeData E)) → length (sources es) ≡ length es
length-sources [] = refl
length-sources (e ∷ es) = ap suc (length-sources es)

module _ (H : Hashes) {N E : Type 0} (hash_id : Ptr → H.RelRcHash) where
  -- The edges of the boxes from place `i` on whose hash was not found yet
  abbrev pub edges_left : List (H.RelRcHash × Ptr) → ℕ → Heap N E → ℕ
  edges_left m i [] = 0
  edges_left m i (b ∷ bs) =
      (if contains_key H m (hash_id i) then 0 else length b.inner.incoming)
      + edges_left m (suc i) bs

  edges_left-fewer :
      (m : List (H.RelRcHash × Ptr)) (k : H.RelRcHash) (p : Ptr) (i : ℕ) (bs : Heap N E)
      → edges_left ((k, p) ∷ m) i bs ≤ edges_left m i bs
  edges_left-fewer m k p i [] = omega arith
  edges_left-fewer m k p i (b ∷ bs) = ground (arith, edges_left-fewer m k p (suc i) bs)

  pub edges_left-found :
      (m : List (H.RelRcHash × Ptr)) (p i j : ℕ) (bs : Heap N E)
      → i + j ≡ p
      → contains_key H m (hash_id p) ≡ false
      → edges_left ((hash_id p, p) ∷ m) i bs + length (box_sources (get_elem? bs j))
        ≤ edges_left m i bs
  edges_left-found m p i j [] place new = omega arith
  edges_left-found m p i zero (b ∷ bs) place new =
      let here : i ≡ p = omega arith in
      let apart : contains_key H m (hash_id i) ≡ false =
        subst (λ a. contains_key H m (hash_id a) ≡ false) (sym here) new in
      let there : hash_eq H (hash_id p) (hash_id i) ≡ true = rw here (ground arith) in
      rw (apart, there)
        (omega
          (arith, length-sources b.inner.incoming, edges_left-fewer m (hash_id p) p (suc i) bs))
  edges_left-found m p i (suc j) (b ∷ bs) place new =
      let rest = edges_left-found m p (suc i) j bs (omega arith) new in ground arith

  pub edges_left-start : (i : ℕ) (bs : Heap N E) → edges_left [] i bs ≡ edge_total bs
  edges_left-start i [] = refl
  edges_left-start i (b ∷ bs) = omega (arith, edges_left-start (suc i) bs)
