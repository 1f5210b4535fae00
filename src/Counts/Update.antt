-- ===== src/Counts/Update.antt =====
-- What a change of one box does to the counts.
use relrc.Prelude.{
  zero, suc, ◌+◌, ◌<◌, ◌≡◌, refl, inl, inr, none, some, List, [], ◌∷◌, arith, ◌==◌, if◌then◌else◌,
  get_elem?, modify, get_elem?-modify, count, Option-cases,
}
use relrc.Object.{Ptr, RcBox, Heap, sources, strong_count, edge_refs, decrement, increment}
use relrc.Counts.{IsCounted, sources_at}

module _ {N E : Type 0} where
  pub edge_refs-modify :
      (h : Heap N E) (p q : Ptr) (f : RcBox N E → RcBox N E) {b : RcBox N E}
      → get_elem? h p ≡ some b
      → edge_refs (modify h p f) q + count q (sources b.inner.incoming)
        ≡ edge_refs h q + count q (sources (f b).inner.incoming)
  edge_refs-modify [] p q f e = cc
  edge_refs-modify (b ∷ h) zero q f e = ground arith
  edge_refs-modify (b ∷ h) (suc p) q f e = omega (arith, edge_refs-modify h p q f e)

  pub modify-none :
      (h : Heap N E) (p : Ptr) (f : RcBox N E → RcBox N E) → get_elem? h p ≡ none → modify h p f ≡ h
  modify-none [] p f e = refl
  modify-none (b ∷ h) zero f e = cc
  modify-none (b ∷ h) (suc p) f e = rw (modify-none h p f e)

  pub strong_count-modify :
      (h : Heap N E) (p q : Ptr) (f : RcBox N E → RcBox N E) {b : RcBox N E}
      → get_elem? h p ≡ some b
      → strong_count (modify h p f) q ≡ (if p == q then (f b).strong else strong_count h q)
  strong_count-modify h p q f e = ground (arith, get_elem?-modify h p q f)

  pub sources-modify :
      (h : Heap N E) (p q : Ptr) (f : RcBox N E → RcBox N E) {b : RcBox N E}
      → get_elem? h p ≡ some b
      → sources_at (modify h p f) q
        ≡ (if p == q then sources (f b).inner.incoming else sources_at h q)
  sources-modify h p q f e = ground (arith, get_elem?-modify h p q f)

-- A change that leaves the sources of the box alone leaves those of every box alone.
pub sources-same :
    {N E : Type 0} (h : Heap N E) (p q : Ptr) (f : RcBox N E → RcBox N E)
    → ((b : RcBox N E) → sources (f b).inner.incoming ≡ sources b.inner.incoming)
    → sources_at (modify h p f) q ≡ sources_at h q
sources-same h p q f same = elim (Option-cases (get_elem? h q)) [
  | inl e ↦ ground (arith, get_elem?-modify h p q f)
  | inr (b, e) ↦ ground (arith, get_elem?-modify h p q f, same b)
]

pub strong-same :
    {N E : Type 0} (h : Heap N E) (p q : Ptr) (f : RcBox N E → RcBox N E)
    → ((b : RcBox N E) → (f b).strong ≡ b.strong)
    → strong_count (modify h p f) q ≡ strong_count h q
strong-same h p q f same = elim (Option-cases (get_elem? h q)) [
  | inl e ↦ ground (arith, get_elem?-modify h p q f)
  | inr (b, e) ↦ ground (arith, get_elem?-modify h p q f, same b)
]

-- A change that leaves the count and the sources of the box alone.
abbrev pub Keeps : {N E : Type 0} → (RcBox N E → RcBox N E) → Type 0
Keeps {N} {E} f =
    (b : RcBox N E)
    → ((f b).strong ≡ b.strong) × (sources (f b).inner.incoming ≡ sources b.inner.incoming)

module _ {N E : Type 0} {roots : List Ptr} {h : Heap N E} (c : IsCounted roots h) where
  pub IsCounted-keep :
      (p : Ptr) (f : RcBox N E → RcBox N E) → Keeps f → IsCounted roots (modify h p f)
  IsCounted-keep p f keeps = elim (Option-cases (get_elem? h p)) [
    | inl e ↦ rw (modify-none h p f e) c
    | inr (b, e) ↦ record {
      counted = λ q.
          ground (
            arith,
            keeps b,
            edge_refs-modify h p q f e,
            strong_count-modify h p q f e,
            c.counted q,
          );
      ordered = λ q. rw (sources-same h p q f (λ b. (keeps b).1)) (c.ordered q);
      freed = λ q z.
          ground
            (arith, keeps b, sources-modify h p q f e, strong_count-modify h p q f e, c.freed q);
    }
  ]

module _ {N E : Type 0} {roots : List Ptr} {h : Heap N E} {p : Ptr} where
  -- A handle more.
  pub IsCounted-increment :
      IsCounted roots h → 0 < strong_count h p → IsCounted (p ∷ roots) (modify h p increment)
  IsCounted-increment c live = elim (Option-cases (get_elem? h p)) [
    | inl e ↦ absurd (ground arith)
    | inr (b, e) ↦ record {
      counted = λ q. ground (
        arith,
        edge_refs-modify h p q increment e,
        strong_count-modify h p q increment e,
        c.counted q,
      );
      ordered = λ q. rw (sources-same h p q increment (λ b. refl)) (c.ordered q);
      freed = λ q z. ground (
        arith,
        sources-modify h p q increment e,
        strong_count-modify h p q increment e,
        c.freed q,
      );
    }
  ]

  -- A handle less, where it was not the last.
  pub IsCounted-decrement :
      IsCounted (p ∷ roots) h → 1 < strong_count h p → IsCounted roots (modify h p decrement)
  IsCounted-decrement c live = elim (Option-cases (get_elem? h p)) [
    | inl e ↦ absurd (ground arith)
    | inr (b, e) ↦ record {
      counted = λ q. ground (
        arith,
        edge_refs-modify h p q decrement e,
        strong_count-modify h p q decrement e,
        c.counted q,
      );
      ordered = λ q. rw (sources-same h p q decrement (λ b. refl)) (c.ordered q);
      freed = λ q z. ground (
        arith,
        sources-modify h p q decrement e,
        strong_count-modify h p q decrement e,
        c.freed q,
      );
    }
  ]

-- The order in which handles are listed does not matter.
pub IsCounted-count :
    {N E : Type 0} {rs qs : List Ptr} {h : Heap N E}
    → ((p : Ptr) → count p qs ≡ count p rs)
    → IsCounted rs h
    → IsCounted qs h
IsCounted-count same c = record {
  counted = λ p. omega (arith, c.counted p, same p);
  ordered = c.ordered;
  freed = c.freed;
}
