-- ===== src/Serialization/Graphs/Opening.antt =====
-- The steps of `HistoryGraph::from_serialized` of src/serialization.rs once the registry is read: the
-- handles that are not kept are dropped, and the others are put in a new graph.
use mathlib.Core.Option
use mathlib.Core.List.{Memᴰ}
use relrc.Prelude.{
  ◌<◌, ◌↔◌, ◌≡◌, refl, sym, ◌∙◌, subst, ap, inl, inr, none, some, List, [], ◌∷◌, map, arith, ◌++◌,
  Option-cases, Bool-cases, All, get_elem?-concat, length,
}
use relrc.SlotMap.{SlotMaps, SecondaryMaps}
use relrc.Object.{Ptr, strong_count}
use relrc.World.{World, share, registry_at}
use relrc.Drop.{drop, each}
use relrc.Registry.Bijection.{Bijective}
use relrc.Registry.Collecting.{from_slotmap-Bijective}
use relrc.History.{HistoryGraph, get_node}
use relrc.Insertion.{insert_all}
use relrc.Insertion.Loading.{insert_all-Loaded, Loaded}
use relrc.Tracking.{registry_of}
use relrc.Tracking.Outliving.{holders}
use relrc.Tracking.Leaving.{each-drop_unregistered}
use relrc.Counts.{IsCounted}
use relrc.Program.Later.{Later, Later-trans, each-drop-Later}
use relrc.Serialization.Format.{SerializedHistoryGraph}
use relrc.Serialization.Restoring.Heaps.{lt_of_alive}
use relrc.Serialization.Restoring.Parents.{SameEdges-later}
use relrc.Serialization.Saving.Reading.{Read}
use relrc.Serialization.Graphs.{has_key, rejected}
use relrc.Serialization.Graphs.Keeping.{has_key_iff, kept_owned, kept_alive}
use relrc.Serialization.Graphs.Asserting.{kept, kept_before}
use relrc.Serialization.Graphs.Opened.{IsReadBack, IsOwner}

All-of_mem : {A : Type 0} {P : A → Type 0} (xs : List A) → ((x : A) → Memᴰ x xs → P x) → All P xs
All-of_mem [] f = tt
All-of_mem (x ∷ xs) f = (f x (Memᴰ.head refl), All-of_mem xs (λ y there. f y (Memᴰ.tail there)))

module _ {S : SlotMaps} (T : SecondaryMaps S) {N E : Type 0} (ser : SerializedHistoryGraph S N E)
    (w : World S N E) (read : Read T ser.registry w.heap) where
  kept_iff :
      (i : S.Key) (p : Ptr)
      → (T.get Ptr (kept T ser w read) i ≡ some p)
        ↔ (Memᴰ i ser.nodes × (S.get Ptr read.registry.nodes i ≡ some p))
  unfolding Option.bind
  kept_iff i p =
      let is = T.get-retain Ptr read.nodes (λ k _. has_key S ser.nodes k) i in
      (
        λ at. (
          elim (Bool-cases (has_key S ser.nodes i)) [
            | inl there ↦ (has_key_iff S ser.nodes i).0 there
            | inr out ↦ elim (Option-cases (T.get Ptr read.nodes i)) [
              | inl gone ↦ absurd (ground arith)
              | inr (q, e) ↦ absurd (ground arith)
            ]
          ],
          read.same_ids i ∙ kept_before T ser w read i p at,
        ),
        λ (there, at).
            let before = sym (read.same_ids i) ∙ at in
            is ∙ rw (before, (has_key_iff S ser.nodes i).1 there) refl,
      )

  -- The world once the handles that are not kept are dropped, and the registry is shared
  abbrev pub dropped : World S N E
  dropped = each drop (rejected S ser.nodes (T.iter Ptr read.nodes)) (record w { heap = read.heap })

  abbrev pub shared : World S N E
  unfolding share
  shared = (share read.registry dropped).1

  abbrev pub empty : HistoryGraph T
  unfolding share
  empty = record { nodes = T.new Ptr; registry = (share read.registry dropped).0 }

  shared-present : registry_at shared empty.registry ≡ some read.registry
  unfolding share
  shared-present = ground (
    arith,
    get_elem?-concat dropped.registries (record { strong = 1; registry = read.registry })
        (length dropped.registries),
  )

  read-Bijective : Bijective read.registry
  read-Bijective =
      subst (λ r. Bijective r) (sym read.collected)
        (from_slotmap-Bijective S read.registry.nodes (λ i k p at_i at_k.
          read.distinct i k p (sym (read.same_ids i) ∙ at_i) (sym (read.same_ids k) ∙ at_k)))

  unregistered :
      (i : S.Key) (p : Ptr)
      → S.get Ptr read.registry.nodes i ≡ some p
      → registry_of shared.heap p ≡ none
  unfolding share
  unregistered i p at =
      each-drop_unregistered p (rejected S ser.nodes (T.iter Ptr read.nodes))
        (record w { heap = read.heap })
        (read.restored i p (sym (read.same_ids i) ∙ at)).unregistered

  kept-Loaded :
      Loaded read.registry read-Bijective
        (T.iter Ptr (kept T ser w read))
        empty
        shared
        (insert_all (map (λ e. e.1) (T.iter Ptr (kept T ser w read))) empty shared)
  unfolding empty
  kept-Loaded =
      insert_all-Loaded read.registry read-Bijective (T.iter Ptr (kept T ser w read)) empty shared
        (T.iter-Once Ptr (kept T ser w read))
        (All-of_mem (T.iter Ptr (kept T ser w read)) (λ (i, p) there.
          let listed = ((kept_iff i p).0 (T.get-iter Ptr (kept T ser w read) i p there)).1 in
          record { listed = listed; outside = unregistered i p listed; missing = T.get-new Ptr i }))
        (record {
          present = shared-present;
          known = λ i p at. absurd (ground (arith, T.get-new Ptr i));
        })

  -- The nodes of the graph that is made
  new-nodes :
      (i : S.Key) (p : Ptr)
      → (get_node (insert_all (map (λ e. e.1) (T.iter Ptr (kept T ser w read))) empty shared).0 i
          ≡ some p)
        ↔ (Memᴰ i ser.nodes × (S.get Ptr read.registry.nodes i ≡ some p))
  unfolding empty
  new-nodes i p =
      let loaded = kept-Loaded in
      (
        λ at. elim ((loaded.nodes i p).0 at) [
          | inl there ↦ (kept_iff i p).0 (T.get-iter Ptr (kept T ser w read) i p there)
          | inr before ↦ absurd (ground (arith, T.get-new Ptr i))
        ],
        λ listed.
            (loaded.nodes i p).1
              (inl (T.iter-get Ptr (kept T ser w read) i p ((kept_iff i p).1 listed))),
      )

  -- What the graph of the nodes that are kept is
  pub new-IsReadBack :
      (roots : List Ptr)
      → IsCounted roots w.heap
      → (let out = insert_all (map (λ e. e.1) (T.iter Ptr (kept T ser w read))) empty shared in
          IsReadBack ser out.0 out.1)
  unfolding share empty
  new-IsReadBack roots c =
      let es = T.iter Ptr (kept T ser w read) in
      let (g, w') = insert_all (map (λ e. e.1) es) empty shared in
      let loaded = kept-Loaded in
      let later : Later read.heap w'.heap =
        Later-trans
          (each-drop-Later (rejected S ser.nodes (T.iter Ptr read.nodes))
            (record w { heap = read.heap }))
          loaded.later in
      let nodes = new-nodes in
      let alive : (i : S.Key) (p : Ptr) → get_node g i ≡ some p → 0 < strong_count w'.heap p =
        λ i p at.
          let (there, listed) = (nodes i p).0 at in
          let still =
            kept_alive T ser w read roots c i p (sym (read.same_ids i) ∙ listed)
              ((has_key_iff S ser.nodes i).1 there) in
          subst (λ n. 0 < n) (sym (loaded.strong p)) still in
      record {
        registry = read.registry;
        present = loaded.loading.present;
        bijective = read-Bijective;
        all_saved =
            λ i v listed. let (p, at) = read.all_found i v listed in (p, read.same_ids i ∙ at);
        read_as = λ i p at.
            let o = read.restored i p (sym (read.same_ids i) ∙ at) in
            record {
              node = o.node;
              saved = o.listed;
              edges = o.edges;
              made_as = λ alive. later.same p (lt_of_alive read.heap p o.alive) alive ∙ o.made_as;
              joined =
                  SameEdges-later (T.get Ptr read.nodes) (S.get Ptr read.registry.nodes)
                    (λ k q found. read.same_ids k ∙ found) p o.node.incoming o.edges o.joined;
            };
        nodes = nodes;
        alive = alive;
        inside = λ i p at.
            let there =
              T.iter-get Ptr (kept T ser w read) i p ((kept_iff i p).1 ((nodes i p).0 at)) in
            loaded.joined i p there (subst (λ n. 0 < n) (loaded.strong p) (alive i p at))
            ∙ ap (λ r. some r) (sym loaded.same);
        outside = λ i p at gone.
            loaded.apart p (λ j there.
              let (known, listed) =
                (kept_iff j p).0 (T.get-iter Ptr (kept T ser w read) j p there) in
              let same : j ≡ i =
                read.distinct j i p (sym (read.same_ids j) ∙ listed) (sym (read.same_ids i) ∙ at) in
              let is = (nodes i p).1 (subst (λ k. Memᴰ k ser.nodes) same known, at) in ground arith)
            ∙ unregistered i p at;
      }

  pub new-IsOwner :
      (roots : List Ptr)
      → IsCounted roots w.heap
      → (let out = insert_all (map (λ e. e.1) (T.iter Ptr (kept T ser w read))) empty shared in
          IsOwner roots out.0 out.1)
  unfolding share empty
  new-IsOwner roots c =
      let loaded = kept-Loaded in
      let (mine, counts, own) = kept_owned T ser w read roots c in
      let alone : holders shared empty.registry ≡ 1 = ground (
        arith,
        get_elem?-concat dropped.registries (record { strong = 1; registry = read.registry })
            (length dropped.registries),
      ) in
      let w' : World S N E =
        (insert_all (map (λ e. e.1) (T.iter Ptr (kept T ser w read))) empty shared).1 in
      record {
        mine = mine;
        counts = loaded.counts (mine ++ roots) counts;
        own = λ i p at.
            let (there, listed) = (new-nodes i p).0 at in
            own i p (sym (read.same_ids i) ∙ listed) ((has_key_iff S ser.nodes i).1 there);
        held = ap (λ rp. holders w' rp) loaded.same ∙ loaded.held empty.registry ∙ alone;
      }
