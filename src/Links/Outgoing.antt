-- ===== src/Links/Outgoing.antt =====
-- `all_outgoing` of src/node.rs finds the edges to the children that are alive.
use relrc.Prelude.{
  ℕ, zero, suc, ◌<◌, ◌≡◌, refl, ◌∙◌, inl, inr, List, [], ◌∷◌, ◌++◌, arith, ◌==◌, ◌&&◌,
  if◌then◌else◌, get_elem?, modify, length, length-modify, Option-cases,
}
use relrc.Object.{Ptr, InnerData, WeakEdge, Heap, deref, strong_count, over_inner}
use relrc.Node.{retain_live, outgoing_of, all_outgoing}
use relrc.Counts.{IsCounted, sources_at}
use relrc.Counts.Update.{sources-same, strong-same, IsCounted-keep}
use relrc.Links.{IsLinked, outgoing_at, weak_count, starts_at}
use relrc.Links.Raising.{
  edge_count, targets, retain_live-Raised, retain_live-counts, retain_live-IsCounted,
}

outgoing-set :
    {N E : Type 0} (g : Heap N E) (p s : Ptr) (es : List WeakEdge)
    → 0 < strong_count g p
    → outgoing_at (modify g p (over_inner (λ inner. record inner { outgoing = es }))) s
      ≡ (if p == s then es else outgoing_at g s)
outgoing-set [] p s es live = absurd (omega arith)
outgoing-set (b ∷ g) zero zero es live = refl
outgoing-set (b ∷ g) zero (suc s) es live = ground arith
outgoing-set (b ∷ g) (suc p) zero es live = ground arith
outgoing-set (b ∷ g) (suc p) (suc s) es live = ground (arith, outgoing-set g p s es)

module _ {N E : Type 0} (p : Ptr) (h : Heap N E) where
  outgoing_of-deref : 0 < strong_count h p → outgoing_of (deref h p) ≡ outgoing_at h p
  outgoing_of-deref alive = elim (Option-cases (get_elem? h p)) [
    | inl e ↦ absurd (ground arith)
    | inr (b, e) ↦ ground arith
  ]

  -- `all_outgoing` owns a handle to the target of each edge that it returns.
  pub all_outgoing-IsCounted :
      {roots : List Ptr}
      → IsCounted roots h
      → IsCounted (targets (all_outgoing p h).0 ++ roots) (all_outgoing p h).1
  unfolding all_outgoing
  all_outgoing-IsCounted {roots} c =
      IsCounted-keep (retain_live-IsCounted (outgoing_of (deref h p)) h roots c) p _
        (λ b. (refl, refl))

  -- Where the lists of outgoing edges are right, `all_outgoing` of a node that is alive returns the
  -- edge at position `i` of `t` once if `t` is alive and the edge starts at the node, and otherwise
  -- not at all.
  pub all_outgoing-edges :
      (t : Ptr) (i : ℕ)
      → IsLinked h
      → 0 < strong_count h p
      → edge_count i t (all_outgoing p h).0
        ≡ (if strong_count h t == 0 then 0 else starts_at p (get_elem? (sources_at h t) i))
  unfolding all_outgoing
  all_outgoing-edges t i l alive =
      ground (
        arith,
        retain_live-counts (outgoing_of (deref h p)) h i t,
        outgoing_of-deref,
        l.linked p t i,
      )

  abbrev kept_on : InnerData N E → InnerData N E
  kept_on inner = record inner { outgoing = (retain_live (outgoing_of (deref h p)) h).0.1 }

  -- The node lists the edges that it listed, less those whose target is dead.
  pruned :
      (s t : Ptr) (i : ℕ)
      → 0 < strong_count h p
      → weak_count i t (outgoing_at (all_outgoing p h).1 s)
        ≡ (if (p == s) && (strong_count h t == 0) then 0 else weak_count i t (outgoing_at h s))
  unfolding all_outgoing
  pruned s t i alive =
      let (kept, g) = retain_live (outgoing_of (deref h p)) h in
      let raised = retain_live-Raised (outgoing_of (deref h p)) h in
      ground (
        arith,
        outgoing-set g p s kept.1,
        raised.dead p,
        raised.outgoing_kept s,
        retain_live-counts (outgoing_of (deref h p)) h i t,
        outgoing_of-deref,
      )

  after-alive : (q : Ptr) → 0 < strong_count (all_outgoing p h).1 q → 0 < strong_count h q
  unfolding all_outgoing
  after-alive q alive =
      let es = outgoing_of (deref h p) in
      ground (
        arith,
        (retain_live-Raised es h).dead q,
        strong-same (retain_live es h).1 p q (over_inner kept_on) (λ b. refl),
      )

  pub still-alive : (q : Ptr) → 0 < strong_count h q → 0 < strong_count (all_outgoing p h).1 q
  unfolding all_outgoing
  still-alive q alive =
      let es = outgoing_of (deref h p) in
      ground (
        arith,
        (retain_live-Raised es h).dead q,
        strong-same (retain_live es h).1 p q (over_inner kept_on) (λ b. refl),
      )

  pub after-sources : (q : Ptr) → sources_at (all_outgoing p h).1 q ≡ sources_at h q
  unfolding all_outgoing
  after-sources q =
      let es = outgoing_of (deref h p) in
      sources-same (retain_live es h).1 p q (over_inner kept_on) (λ b. refl)
      ∙ (retain_live-Raised es h).sources_kept q

  after-length : length (all_outgoing p h).1 ≡ length h
  unfolding all_outgoing
  after-length =
      let es = outgoing_of (deref h p) in
      length-modify (retain_live es h).1 p (over_inner kept_on) ∙ (retain_live-Raised es h).size

  -- `all_outgoing` keeps the links right.
  pub all_outgoing-IsLinked : IsLinked h → 0 < strong_count h p → IsLinked (all_outgoing p h).1
  all_outgoing-IsLinked l alive = record {
    linked = λ s t i live_s live_t.
        ground (arith, pruned s t i, after-alive s, after-alive t, after-sources t, l.linked s t i);
    absent = λ s t i live_s far.
        ground (arith, pruned s t i, after-alive s, after-length, l.absent s t i);
  }
