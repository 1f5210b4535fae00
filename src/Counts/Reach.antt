-- ===== src/Counts/Reach.antt =====
-- With correct counts a node is alive exactly if a handle leads to it through parents.
use relrc.Prelude.{
  ℕ, zero, suc, ◌+◌, ◌<◌, ◌≤◌, ◌≡◌, refl, inl, inr, ◌⊎◌, List, [], ◌∷◌, arith, count, All, length,
  ◌↔◌, get_elem?_beyond, ap,
}
use relrc.Object.{Ptr, Heap, sources, strong_count, edge_refs}
use relrc.Counts.{IsCounted, sources_at}

-- `p` is `r` or an ancestor of `r`.
pub data Reaches {N E : Type 0} (h : Heap N E) (r : Ptr) : Ptr → Type 0 where
  here : Reaches h r r
  up : {q p : Ptr} → Reaches h r q → 0 < count p (sources_at h q) → Reaches h r p

-- A handle of `roots` to `p` or to a descendant of `p`.
abbrev pub Held : {N E : Type 0} → List Ptr → Heap N E → Ptr → Type 0
Held roots h p = (r : Ptr) × (0 < count r roots) × Reaches h r p

pos_cases : (n : ℕ) → (n ≡ 0) ⊎ (0 < n)
pos_cases zero = inl refl
pos_cases (suc n) = inr (omega arith)

pub lt_of_count : (a b : ℕ) (xs : List ℕ) → All (λ x. x < b) xs → 0 < count a xs → a < b
lt_of_count a b [] below h = absurd (omega arith)
lt_of_count a b (x ∷ xs) below h = ground (arith, lt_of_count a b xs below.1)

module _ {N E : Type 0} where
  pub count-le-edge_refs : (h : Heap N E) (p q : Ptr) → count p (sources_at h q) ≤ edge_refs h p
  count-le-edge_refs [] p q = omega arith
  count-le-edge_refs (b ∷ h) p zero = omega arith
  count-le-edge_refs (b ∷ h) p (suc q) = omega (arith, count-le-edge_refs h p q)

  edge_of_refs :
      (h : Heap N E) (p : Ptr) → 0 < edge_refs h p → (q : Ptr) × (0 < count p (sources_at h q))
  edge_of_refs [] p r = absurd (omega arith)
  edge_of_refs (b ∷ h) p r = elim (pos_cases (count p (sources b.inner.incoming))) [
    | inl none_here ↦ let (q, found) = edge_of_refs h p (omega arith) in (suc q, found)
    | inr found ↦ (zero, found)
  ]

module _ {N E : Type 0} {roots : List Ptr} {h : Heap N E} (c : IsCounted roots h) where
  held-alive : {r p : Ptr} → 0 < count r roots → Reaches h r p → 0 < strong_count h p
  held-alive {r} own here = omega (arith, c.counted r)
  held-alive own (up {q} {p} path edge) = omega (arith, c.counted p, count-le-edge_refs h p q)

  sources-alive : (p q : Ptr) → 0 < count p (sources_at h q) → 0 < strong_count h q
  sources-alive p q edge = elim (pos_cases (strong_count h q)) [
    | inl dead ↦ absurd (omega (arith, ap (count p) (c.freed q dead)))
    | inr alive ↦ alive
  ]

  alive-Held : (n : ℕ) (p : Ptr) → length h ≤ p + n → 0 < strong_count h p → Held roots h p
  alive-Held zero p far alive = absurd (ground (arith, get_elem?_beyond h p))
  alive-Held (suc n) p far alive = elim (pos_cases (count p roots)) [
    | inr own ↦ (p, own, here)
    | inl other ↦
        let (q, edge) = edge_of_refs h p (omega (arith, c.counted p)) in
        let later : p < q = lt_of_count p q (sources_at h q) (c.ordered q) edge in
        let (r, own, path) = alive-Held n q (omega arith) (sources-alive p q edge) in
        (r, own, up path edge)
  ]

  pub alive_iff : (p : Ptr) → (0 < strong_count h p) ↔ Held roots h p
  alive_iff p = (alive-Held (length h) p (omega arith), λ (r, own, path). held-alive own path)
