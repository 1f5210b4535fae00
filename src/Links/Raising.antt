-- ===== src/Links/Raising.antt =====
-- `retain_live` of src/node.rs, which upgrades the weak edges of a node: what it does to the heap and
-- which edges it returns and keeps.
use relrc.Prelude.{
  ℕ, ◌+◌, ◌≡◌, refl, ◌∙◌, inl, inr, none, some, List, [], ◌∷◌, ◌++◌, arith, ◌==◌, ◌&&◌,
  if◌then◌else◌, get_elem?, modify, get_elem?-modify, length, length-modify, Option-cases,
  Bool-cases, count-append, map,
}
use relrc.Object.{
  Ptr, RcBox, WeakEdge, Edge, Heap, sources, strong_count, upgrade, clone, increment,
}
use relrc.Node.{retain_live}
use relrc.Counts.{IsCounted, sources_at}
use relrc.Counts.Update.{sources-same, strong-same, IsCounted-count}
use relrc.Counts.Creating.{upgrade-IsCounted}
use relrc.Links.{outgoing_at, weak_count}

-- How often an edge is returned.
abbrev pub edge_count : ℕ → Ptr → List Edge → ℕ
edge_count i t [] = 0
edge_count i t (e ∷ es) = (if (i == e.index) && (t == e.target) then 1 else 0) + edge_count i t es

abbrev pub targets : List Edge → List Ptr
targets es = map (λ e. e.target) es

-- Upgrading raises counts of nodes that are alive, and does nothing else.
pub record Raised {N E : Type 0} (h g : Heap N E) : Type 0 where
  pub dead : (q : Ptr) → (strong_count g q == 0) ≡ (strong_count h q == 0)
  pub sources_kept : (q : Ptr) → sources_at g q ≡ sources_at h q
  pub outgoing_kept : (q : Ptr) → outgoing_at g q ≡ outgoing_at h q
  pub size : length g ≡ length h

pub Raised-refl : {N E : Type 0} (h : Heap N E) → Raised h h
Raised-refl h = record {
  dead = λ q. refl;
  sources_kept = λ q. refl;
  outgoing_kept = λ q. refl;
  size = refl;
}

pub Raised-trans : {N E : Type 0} {h g k : Heap N E} → Raised h g → Raised g k → Raised h k
Raised-trans a b = record {
  dead = λ q. b.dead q ∙ a.dead q;
  sources_kept = λ q. b.sources_kept q ∙ a.sources_kept q;
  outgoing_kept = λ q. b.outgoing_kept q ∙ a.outgoing_kept q;
  size = b.size ∙ a.size;
}

module _ {N E : Type 0} where
  outgoing-same :
      (h : Heap N E) (p q : Ptr) (f : RcBox N E → RcBox N E)
      → ((b : RcBox N E) → (f b).inner.outgoing ≡ b.inner.outgoing)
      → outgoing_at (modify h p f) q ≡ outgoing_at h q
  outgoing-same h p q f same = elim (Option-cases (get_elem? h q)) [
    | inl e ↦ ground (arith, get_elem?-modify h p q f)
    | inr (b, e) ↦ ground (arith, get_elem?-modify h p q f, same b)
  ]

  pub modify-Raised :
      (h : Heap N E) (p : Ptr) (f : RcBox N E → RcBox N E)
      → ((b : RcBox N E) → (f b).strong ≡ b.strong)
      → ((b : RcBox N E) → sources (f b).inner.incoming ≡ sources b.inner.incoming)
      → ((b : RcBox N E) → (f b).inner.outgoing ≡ b.inner.outgoing)
      → Raised h (modify h p f)
  modify-Raised h p f strong incoming outgoing = record {
    dead = λ q. rw (strong-same h p q f strong);
    sources_kept = λ q. sources-same h p q f incoming;
    outgoing_kept = λ q. outgoing-same h p q f outgoing;
    size = length-modify h p f;
  }

  pub upgrade-Raised : (p : Ptr) (h : Heap N E) → Raised h (upgrade p h).1
  unfolding upgrade clone
  upgrade-Raised p h = elim (Bool-cases (strong_count h p == 0)) [
    | inl dead ↦ rw dead (Raised-refl h)
    | inr alive ↦ rw alive (record {
      dead = λ q. elim (Option-cases (get_elem? h q)) [
        | inl e ↦ ground (arith, get_elem?-modify h p q increment)
        | inr (b, e) ↦ ground (arith, get_elem?-modify h p q increment)
      ];
      sources_kept = λ q. sources-same h p q increment (λ b. refl);
      outgoing_kept = λ q. outgoing-same h p q increment (λ b. refl);
      size = length-modify h p increment;
    })
  ]

  upgrade-value :
      (p : Ptr) (h : Heap N E) → (upgrade p h).0 ≡ (if strong_count h p == 0 then none else some p)
  unfolding upgrade
  upgrade-value p h = ground arith

  pub retain_live-Raised : (es : List WeakEdge) (h : Heap N E) → Raised h (retain_live es h).1
  unfolding retain_live
  retain_live-Raised [] h = Raised-refl h
  retain_live-Raised (e ∷ es) h =
      Raised-trans (upgrade-Raised e.target h) (retain_live-Raised es (upgrade e.target h).1)

  -- The edges that are returned and those that are kept are the ones whose target is alive.
  pub retain_live-counts :
      (es : List WeakEdge) (h : Heap N E) (i : ℕ) (t : Ptr)
      → (edge_count i t (retain_live es h).0.0
          ≡ (if strong_count h t == 0 then 0 else weak_count i t es))
        × (weak_count i t (retain_live es h).0.1
            ≡ (if strong_count h t == 0 then 0 else weak_count i t es))
  unfolding retain_live
  retain_live-counts [] h i t = ground arith
  retain_live-counts (e ∷ es) h i t = rw (upgrade-value e.target h) (
      ground (
        arith,
        retain_live-counts es (upgrade e.target h).1 i t,
        (upgrade-Raised e.target h).dead t,
      ))

  pub retain_live-IsCounted :
      (es : List WeakEdge) (h : Heap N E) (roots : List Ptr)
      → IsCounted roots h
      → IsCounted (targets (retain_live es h).0.0 ++ roots) (retain_live es h).1
  unfolding retain_live
  retain_live-IsCounted [] h roots c = c
  retain_live-IsCounted (e ∷ es) h roots c = elim (upgrade-IsCounted c e.target) [
    | inl (got, alive, c') ↦ rw got (
        IsCounted-count
          (λ p. omega (
            arith,
            count-append p (targets (retain_live es (upgrade e.target h).1).0.0) roots,
            count-append p (targets (retain_live es (upgrade e.target h).1).0.0) (e.target ∷ roots),
          ))
          (retain_live-IsCounted es (upgrade e.target h).1 (e.target ∷ roots) c'))
    | inr (got, dead, same) ↦ rw (got, same) (retain_live-IsCounted es h roots c)
  ]
