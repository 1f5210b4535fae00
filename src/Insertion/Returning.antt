-- ===== src/Insertion/Returning.antt =====
-- `insert_ancestors` of src/history.rs ends, and no `expect` of it panics.
use relrc.Prelude.{
  ℕ, zero, suc, ◌<◌, ◌≡◌, inl, inr, refl, ◌==◌, true, Option, none, some, List, [], ◌∷◌, arith,
  Option-cases, Bool-cases, All, subst, sym, ◌∙◌,
}
use mathlib.Core.Option
use relrc.SlotMap.{SlotMaps, SecondaryMaps}
use relrc.Object.{Ptr, deref, clone}
use relrc.Registry.{add_node}
use relrc.World.{World}
use relrc.Drop.{parents_of, try_set_register, try_register_in, drop}
use relrc.Tracking.{registry_of}
use relrc.History.{HistoryGraph, get_node_id, contains}
use relrc.Insertion.{
  Outcome, insert_node, insert_parents, insert_self, insert_depth, insert_ancestors, finish,
  known_or,
}
use relrc.Insertion.Fitting.{
  Fits, increment-Fits, set-Fits, put-Fits, drop-Fits, own-registry_of, parents_below,
}

-- `none` is no id, and the state fits.
pub record Registered {S : SlotMaps} {N E : Type 0} (rp : Ptr) (out : Option S.Key × World S N E)
    : Type 0 where
  pub key : S.Key
  pub returned : out.0 ≡ some key
  pub fits : Fits rp out.1

module _ {S : SlotMaps} {N E : Type 0} where
  pub try_register_in-Registered :
      (p rp : Ptr) (w : World S N E) → Fits rp w → Registered rp (try_register_in p rp w)
  unfolding try_register_in try_set_register
  try_register_in-Registered p rp w fits =
      let (r, there) = fits.present in
      elim (Option-cases (registry_of w.heap p)) [
        | inl e ↦
            rw (e, there)
              (record {
                key = (add_node r p).0;
                returned = refl;
                fits = put-Fits rp _ rp (add_node r p).1 there (set-Fits rp w p fits);
              })
        | inr (q, e) ↦
            let same : (q == rp) ≡ true = own-registry_of rp w p q fits e in
            rw (e, same, there)
              (record {
                key = (add_node r p).0;
                returned = refl;
                fits = put-Fits rp w rp (add_node r p).1 there fits;
              })
      ]

-- `insert_node` gives an id, and leaves the graph with its registry and a state that fits.
record Inserted {S : SlotMaps} {T : SecondaryMaps S} {N E : Type 0} (rp : Ptr)
    (out : Outcome T N E (Option S.Key)) : Type 0 where
  key : S.Key
  returned : out.0 ≡ some key
  registry : out.1.registry ≡ rp
  fits : Fits rp out.2

-- A call returns, and leaves the graph with its registry and a state that fits.
record Returns {S : SlotMaps} {T : SecondaryMaps S} {N E A : Type 0} (rp : Ptr)
    (out : Option (Outcome T N E A)) : Type 0 where
  value : A
  graph : HistoryGraph T
  world : World S N E
  returned : out ≡ some (value, graph, world)
  registry : graph.registry ≡ rp
  fits : Fits rp world

module _ {S : SlotMaps} {T : SecondaryMaps S} {N E : Type 0} where
  finish-Inserted :
      (g : HistoryGraph T) (node : Ptr) (out : Option S.Key × World S N E)
      → Registered g.registry out
      → Inserted g.registry (finish g node out)
  unfolding finish
  finish-Inserted g node (none, w) r = absurd (ground (arith, r.returned))
  finish-Inserted g node (some id, w) r = record {
    key = id;
    returned = refl;
    registry = refl;
    fits = r.fits;
  }

  insert_node-Inserted :
      (node : Ptr) (g : HistoryGraph T) (w : World S N E)
      → Fits g.registry w
      → Inserted g.registry (insert_node node g w)
  unfolding insert_node known_or
  insert_node-Inserted node g w fits = elim (Option-cases (get_node_id g w node)) [
    | inl unknown ↦
        rw (unknown, known_or)
          (finish-Inserted g node (try_register_in node g.registry w)
            (try_register_in-Registered node g.registry w fits))
    | inr (id, known) ↦
        rw (known, known_or)
          (record {
            key = id;
            returned = refl;
            registry = refl;
            fits = drop-Fits g.registry node w fits;
          })
  ]

record Passes {S : SlotMaps} {T : SecondaryMaps S} {N E : Type 0} (rp : Ptr)
    (out : Option (HistoryGraph T × World S N E)) : Type 0 where
  graph : HistoryGraph T
  world : World S N E
  returned : out ≡ some (graph, world)
  registry : graph.registry ≡ rp
  fits : Fits rp world

module _ {S : SlotMaps} {T : SecondaryMaps S} {N E : Type 0} (rp : Ptr) where
  insert_self-Returns :
      (node : Ptr) (g : HistoryGraph T) (w : World S N E)
      → g.registry ≡ rp
      → Fits rp w
      → Returns rp (insert_self node g w)
  unfolding insert_self
  insert_self-Returns node g w same fits =
      let w' : World S N E = record w { heap = clone node w.heap } in
      let cloned : Fits g.registry w' =
        subst (λ r. Fits r w') (sym same) (increment-Fits rp w node fits) in
      let r = insert_node-Inserted node g w' cloned in
      rw (r.returned, insert_self)
        (record {
          value = r.key;
          graph = _;
          world = drop node (insert_node node g w').2;
          returned = refl;
          registry = r.registry ∙ same;
          fits =
              drop-Fits rp node (insert_node node g w').2
                (subst (λ q. Fits q (insert_node node g w').2) same r.fits);
        })

  insert_parents-Passes :
      (insert : Ptr → HistoryGraph T → World S N E → Option (Outcome T N E S.Key)) (n : ℕ)
      → ((p : Ptr) (g : HistoryGraph T) (w : World S N E)
          → p < n
          → g.registry ≡ rp
          → Fits rp w
          → Returns rp (insert p g w))
      → (ps : List Ptr) (g : HistoryGraph T) (w : World S N E) → All (λ p. p < n) ps
      → g.registry ≡ rp
      → Fits rp w
      → Passes rp (insert_parents insert ps g w)
  unfolding insert_parents Option.bind
  insert_parents-Passes insert n one [] g w below same fits = record {
    graph = g;
    world = w;
    returned = refl;
    registry = same;
    fits = fits;
  }
  insert_parents-Passes insert n one (p ∷ ps) g w below same fits =
      elim (Bool-cases (contains g w p)) [
        | inl there ↦
            rw (there, insert_parents) (insert_parents-Passes insert n one ps g w below.1 same fits)
        | inr missing ↦
            let r =
              one p g (record w { heap = clone p w.heap }) below.0 same
                (increment-Fits rp w p fits) in
            rw (missing, insert_parents, r.returned)
              (insert_parents-Passes insert n one ps r.graph r.world below.1 r.registry r.fits)
      ]

  insert_depth-Returns :
      (depth : ℕ) (node : Ptr) (g : HistoryGraph T) (w : World S N E)
      → node < depth
      → g.registry ≡ rp
      → Fits rp w
      → Returns rp (insert_depth depth node g w)
  unfolding insert_depth Option.bind
  insert_depth-Returns zero node g w enough same fits = absurd (omega arith)
  insert_depth-Returns (suc depth) node g w enough same fits =
      let r =
        insert_parents-Passes (insert_depth depth) depth (insert_depth-Returns depth)
          (parents_of (deref w.heap node)) g w (parents_below rp w fits node depth enough) same
          fits in
      rw r.returned (insert_self-Returns node r.graph r.world r.registry r.fits)

-- Where the graph's registry is alive, no node is in another registry and parents are older than
-- their children, `insert_ancestors` returns: it neither runs out of its depth nor panics. The graph
-- keeps its registry, and the same holds of the state that it leaves.
pub insert_ancestors-returns :
    {S : SlotMaps} {T : SecondaryMaps S} {N E : Type 0} (node : Ptr) (g : HistoryGraph T)
    (w : World S N E)
    → Fits g.registry w
    → (id : S.Key) × (g' : HistoryGraph T) × (w' : World S N E) × (insert_ancestors node g w
        ≡ some (id, g', w'))
      × (g'.registry ≡ g.registry)
      × Fits g.registry w'
unfolding insert_ancestors
insert_ancestors-returns node g w fits =
    let r = insert_depth-Returns g.registry (suc node) node g w (omega arith) refl fits in
    (r.value, r.graph, r.world, r.returned, r.registry, r.fits)
