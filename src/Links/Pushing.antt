-- ===== src/Links/Pushing.antt =====
-- What `register_outgoing_edges` of src/node.rs adds to the lists of outgoing edges.
use relrc.Prelude.{
  ℕ, zero, suc, ◌+◌, ◌-◌, ◌<◌, ◌≤◌, ◌≡◌, refl, ◌∙◌, some, List, [], ◌∷◌, ◌++◌, arith, ◌==◌, ltb,
  if◌then◌else◌, get_elem?, modify, length, length-modify, All,
}
use relrc.Object.{Ptr, InnerEdgeData, WeakEdge, Heap, sources, strong_count, over_inner}
use relrc.Node.{incoming_edges, register_from, push_outgoing, downgrade}
use relrc.Counts.{sources_at}
use relrc.Counts.Update.{sources-same, strong-same}
use relrc.Counts.Creating.{handles}
use relrc.Links.{outgoing_at, weak_count, starts_at}

-- How often the edges `es`, the first of which has position `k`, put the edge at position `i` of `t`
-- on the list of `s`.
abbrev pub pushed : {E : Type 0} → ℕ → List (InnerEdgeData E) → Ptr → Ptr → ℕ → ℕ
pushed k [] s t i = 0
pushed k (e ∷ es) s t i =
    (if e.source == s then weak_count i t (downgrade e k ∷ []) else 0) + pushed (suc k) es s t i

weak_count-concat :
    (i : ℕ) (t : Ptr) (es : List WeakEdge) (e : WeakEdge)
    → weak_count i t (es ++ e ∷ []) ≡ weak_count i t es + weak_count i t (e ∷ [])
weak_count-concat i t [] e = omega arith
weak_count-concat i t (d ∷ es) e = omega (arith, weak_count-concat i t es e)

module _ {N E : Type 0} where
  weak_count-push :
      (h : Heap N E) (p s t : Ptr) (i : ℕ) (e : WeakEdge)
      → p < length h
      → weak_count i t (outgoing_at (modify h p (over_inner (push_outgoing e))) s)
        ≡ weak_count i t (outgoing_at h s) + (if p == s then weak_count i t (e ∷ []) else 0)
  weak_count-push [] p s t i e lt = absurd (omega arith)
  weak_count-push (b ∷ h) zero zero t i e lt = weak_count-concat i t b.inner.outgoing e
  weak_count-push (b ∷ h) zero (suc s) t i e lt = ground arith
  weak_count-push (b ∷ h) (suc p) zero t i e lt = ground arith
  weak_count-push (b ∷ h) (suc p) (suc s) t i e lt = ground (arith, weak_count-push h p s t i e)

  pub weak_count-register :
      (k : ℕ) (es : List (InnerEdgeData E)) (h : Heap N E) (s t : Ptr) (i : ℕ)
      → All (λ q. q < length h) (sources es)
      → weak_count i t (outgoing_at (register_from k es h) s)
        ≡ weak_count i t (outgoing_at h s) + pushed k es s t i
  unfolding register_from
  weak_count-register k [] h s t i below = omega arith
  weak_count-register k (e ∷ es) h s t i below = omega (
    arith,
    weak_count-register (suc k) es (modify h e.source (over_inner (push_outgoing (downgrade e k))))
        s t i (rw (length-modify h e.source (over_inner (push_outgoing (downgrade e k)))) below.1),
    weak_count-push h e.source s t i (downgrade e k) below.0,
  )

get_elem?-shift {ℓ} :
    {A : Type ℓ} (x : A) (xs : List A) (i k n : ℕ)
    → i - k ≡ n
    → k ≤ i
    → get_elem? (x ∷ xs) n ≡ (if i == k then some x else get_elem? xs (i - suc k))
get_elem?-shift x xs i k zero e le = ground arith
get_elem?-shift x xs i k (suc n) e le = let e' : i - suc k ≡ n = omega arith in rw e' (ground arith)

pub pushed-incoming_edges :
    {E : Type 0} (k : ℕ) (ps : List (Ptr × E)) (node s t : Ptr) (i : ℕ)
    → pushed k (incoming_edges node ps) s t i ≡ (
        if t == node
        then (if ltb i k then 0 else starts_at s (get_elem? (handles ps) (i - k)))
        else 0)
unfolding incoming_edges
pushed-incoming_edges k [] node s t i = ground arith
pushed-incoming_edges k (p ∷ ps) node s t i = ground (
  arith,
  pushed-incoming_edges (suc k) ps node s t i,
  get_elem?-shift p.0 (handles ps) i k (i - k) refl,
)

module _ {N E : Type 0} where
  pub register_from-sources :
      (k : ℕ) (es : List (InnerEdgeData E)) (g : Heap N E) (q : Ptr)
      → sources_at (register_from k es g) q ≡ sources_at g q
  unfolding register_from
  register_from-sources k [] g q = refl
  register_from-sources k (e ∷ es) g q =
      register_from-sources (suc k) es _ q ∙ sources-same g e.source q _ (λ b. refl)

  pub register_from-strong :
      (k : ℕ) (es : List (InnerEdgeData E)) (g : Heap N E) (q : Ptr)
      → strong_count (register_from k es g) q ≡ strong_count g q
  unfolding register_from
  register_from-strong k [] g q = refl
  register_from-strong k (e ∷ es) g q =
      register_from-strong (suc k) es _ q ∙ strong-same g e.source q _ (λ b. refl)

  pub register_from-length :
      (k : ℕ) (es : List (InnerEdgeData E)) (g : Heap N E)
      → length (register_from k es g) ≡ length g
  unfolding register_from
  register_from-length k [] g = refl
  register_from-length k (e ∷ es) g = register_from-length (suc k) es _ ∙ length-modify g e.source _

pub starts_at_below :
    (s b : Ptr) (xs : List Ptr) (i : ℕ)
    → All (λ q. q < b) xs
    → b ≤ s
    → starts_at s (get_elem? xs i) ≡ 0
starts_at_below s b [] i below le = refl
starts_at_below s b (x ∷ xs) zero below le = ground arith
starts_at_below s b (x ∷ xs) (suc i) below le = starts_at_below s b xs i below.1 le
