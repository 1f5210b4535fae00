-- ===== src/Insertion/Closing.antt =====
-- `insert_ancestors` of src/history.rs leaves a graph that has the parents of its nodes.
pub mod Ancestors
use relrc.Prelude.{
  ℕ, zero, suc, ◌+◌, ◌<◌, ◌≡◌, ◌⊎◌, inl, inr, refl, ap, sym, subst, ◌∙◌, ◌==◌, ==_iff, true, false,
  Option, none, some, List, [], ◌∷◌, ◌++◌, arith, count, count-append, length, get_elem?, All,
  All-of_count, Option-cases, Bool-cases,
}
use mathlib.Core.Option
use relrc.SlotMap.{SlotMaps, SecondaryMaps}
use relrc.Object.{Ptr, Heap, strong_count, deref, clone}
use relrc.World.{World}
use relrc.Drop.{drop, parents_of}
use relrc.Counts.{IsCounted, sources_at}
use relrc.Counts.Dropping.{parents-sources}
use relrc.Counts.Reach.{Reaches, here, up, count-le-edge_refs}
use relrc.Program.Later.{Later, Later-refl, Later-trans, clone-Later, drop-Later}
use relrc.Serialization.Restoring.Heaps.{lt_of_alive}
use relrc.History.{HistoryGraph, get_node, contains}
use relrc.Insertion.{
  Outcome, insert_node, insert_parents, insert_self, insert_depth, insert_ancestors,
}
use relrc.Insertion.Fitting.{Fits, parents_below}
use relrc.Insertion.Holding.{In, Holds, clone-Holds, drop-Holds, contains-In}
use relrc.Insertion.Holding.Inserting.{Added, insert_node-Added}

-- The parents of the nodes of the graph are in the graph.
abbrev pub Closed :
    {S : SlotMaps} {T : SecondaryMaps S} {N E : Type 0} → HistoryGraph T → World S N E → Type 0
Closed g w = (q r : Ptr) → In g q → 0 < count r (sources_at w.heap q) → In g r

-- What was created does not change its edges while it is alive.
pub sources-Later :
    {N E : Type 0} {h h' : Heap N E} (q : Ptr)
    → Later h h'
    → 0 < strong_count h q
    → 0 < strong_count h' q
    → sources_at h' q ≡ sources_at h q
sources-Later {h} {h'} q later before after =
    let made_eq = later.same q (lt_of_alive h q before) after in
    elim (Option-cases (get_elem? h q)) [
      | inl e ↦ absurd (ground arith)
      | inr (b, e) ↦ elim (Option-cases (get_elem? h' q)) [
        | inl e' ↦ absurd (ground arith)
        | inr (b', e') ↦ ground arith
      ]
    ]

-- A graph that came of `g`: it has what `g` had, and is closed.
pub record Closes {S : SlotMaps} {T : SecondaryMaps S} {N E : Type 0} (extra : List Ptr)
    (g : HistoryGraph T) (w : World S N E) (out : HistoryGraph T × World S N E) : Type 0 where
  pub mine : List Ptr
  pub holds : Holds extra mine out.0 out.1
  pub closed : Closed out.0 out.1
  pub later : Later w.heap out.1.heap
  pub grown : (q : Ptr) → In g q → In out.0 q

pub All-at : (P : Ptr → Type 0) (ps : List Ptr) (r : Ptr) → All P ps → 0 < count r ps → P r
All-at P [] r all there = absurd (omega arith)
All-at P (p ∷ ps) r (own, all) there = elim (Bool-cases (r == p)) [
  | inl same ↦ subst P (sym ((==_iff r p).0 same)) own
  | inr other ↦ All-at P ps r all (ground arith)
]

module _ {S : SlotMaps} {T : SecondaryMaps S} {N E : Type 0} where
  pub extra_alive :
      {extra mine : List Ptr} {g : HistoryGraph T} {w : World S N E} (p : Ptr)
      → Holds extra mine g w
      → 0 < count p extra
      → 0 < strong_count w.heap p
  extra_alive {extra} {mine} p o own = omega (arith, o.counts.counted p, count-append p extra mine)

  pub In-alive :
      {extra mine : List Ptr} {g : HistoryGraph T} {w : World S N E} (p : Ptr)
      → Holds extra mine g w
      → In g p
      → 0 < strong_count w.heap p
  In-alive {extra} {mine} p o (id, there) =
      omega (arith, o.counts.counted p, o.owned id p there, count-append p extra mine)

  pub Closed-Later :
      {extra mine extra' mine' : List Ptr} (g : HistoryGraph T) {w w' : World S N E}
      → Holds extra mine g w
      → Holds extra' mine' g w'
      → Later w.heap w'.heap
      → Closed g w
      → Closed g w'
  Closed-Later g o o' later closed q r in_g edge =
      closed q r in_g (rw (sources-Later q later (In-alive q o in_g) (In-alive q o' in_g)) at edge)

  pub Closes-trans :
      {extra extra' : List Ptr} {g : HistoryGraph T} {w : World S N E}
      {out out' : HistoryGraph T × World S N E}
      → Closes extra g w out
      → Closes extra' out.0 out.1 out'
      → Closes extra' g w out'
  Closes-trans a b = record {
    mine = b.mine;
    holds = b.holds;
    closed = b.closed;
    later = Later-trans a.later b.later;
    grown = λ q in_g. b.grown q (a.grown q in_g);
  }

  -- `insert_node` of a clone, where the parents are there
  pub insert_self-Closes :
      (extra mine : List Ptr) (node : Ptr) (g : HistoryGraph T) (w : World S N E)
      → Holds (node ∷ extra) mine g w
      → Closed g w
      → ((r : Ptr) → 0 < count r (sources_at w.heap node) → In g r)
      → (id : S.Key) × (out : HistoryGraph T × World S N E) × (insert_self node g w
          ≡ some (id, out.0, out.1))
        × Closes extra g w out
        × (get_node out.0 id ≡ some node)
  unfolding insert_self
  insert_self-Closes extra mine node g w o closed parents =
      let w1 : World S N E = record w { heap = clone node w.heap } in
      let live = extra_alive node o (ground arith) in
      let a =
        insert_node-Added (node ∷ extra) mine g w1 node
          (clone-Holds (node ∷ extra) mine g node w live o) in
      let got = insert_node node g w1 in
      let last =
        drop-Holds extra a.mine got.1 node got.2 (a.holds.owned a.key node a.own) a.holds in
      let later =
        Later-trans (clone-Later node w.heap live) (Later-trans a.later (drop-Later node got.2)) in
      (
        a.key,
        (got.1, drop node got.2),
        rw a.returned refl,
        record {
          mine = a.mine;
          holds = last;
          closed = λ q r in_g edge.
              let after = In-alive q last in_g in
              elim (a.only q in_g) [
                | inl is ↦
                    let before : 0 < strong_count w.heap q =
                      subst (λ p. 0 < strong_count w.heap p) (sym is) live in
                    let edge' = rw (sources-Later q later before after) at edge in
                    a.grown r (parents r (subst (λ p. 0 < count r (sources_at w.heap p)) is edge'))
                | inr old ↦
                    let edge' = rw (sources-Later q later (In-alive q o old) after) at edge in
                    a.grown r (closed q r old edge')
              ];
          later = later;
          grown = a.grown;
        },
        a.own,
      )
