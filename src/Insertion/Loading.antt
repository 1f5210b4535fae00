-- ===== src/Insertion/Loading.antt =====
-- `HistoryGraph::new` of src/history.rs with nodes that its registry lists and that are in none yet.
use mathlib.Core.Option
use mathlib.Core.List.{Memᴰ}
use mathlib.Core.List.Memᴰ
use relrc.Prelude.{
  ◌<◌, ◌≡◌, ◌≢◌, ◌⊎◌, ◌↔◌, inl, inr, refl, ap, sym, ◌∙◌, subst, ◌==◌, ==_iff, false, none, some,
  List, [], ◌∷◌, map, arith, All, All-zip, if◌then◌else◌, Bool-cases,
}
use relrc.SlotMap.{SlotMaps, SecondaryMaps, Once}
use relrc.SlotMap.Inserting.{get-insert_alone}
use relrc.Object.{Ptr, strong_count, over_inner}
use relrc.Registry.{Registry, get_id}
use relrc.Registry.Bijection.{Bijective, add_node-known}
use relrc.World.{World, registry_at, put_registry}
use relrc.Drop.{try_register_in, set_register, set_registry}
use relrc.Counts.{IsCounted}
use relrc.Counts.Update.{strong-same, IsCounted-keep}
use relrc.Tracking.Outliving.{holders, holders-put}
use relrc.Tracking.{registry_of, registry_of-set, registry_at-put}
use relrc.Program.Later.{Later, Later-refl, Later-trans, Later-modify}
use relrc.History.{HistoryGraph, get_node, get_node_id}
use relrc.Insertion.Adding.{insert_node-result}
use relrc.Insertion.{insert_node, insert_all, put_node}

module _ {S : SlotMaps} {T : SecondaryMaps S} {N E : Type 0} (r : Registry S)
    (b : Bijective r) where
  -- An entry of the registry whose node is not in the graph, and says that it is in no registry
  pub record IsWaiting (g : HistoryGraph T) (w : World S N E) (e : S.Key × Ptr) : Type 0 where
    pub listed : S.get Ptr r.nodes e.0 ≡ some e.1
    pub outside : registry_of w.heap e.1 ≡ none
    pub missing : get_node g e.0 ≡ none

  -- The state in the loop
  pub record IsLoading (g : HistoryGraph T) (w : World S N E) : Type 0 where
    pub present : registry_at w g.registry ≡ some r
    pub known : (k : S.Key) (p : Ptr) → get_node g k ≡ some p → S.get Ptr r.nodes k ≡ some p

  -- What the loop leaves
  pub record Loaded (es : List (S.Key × Ptr)) (g : HistoryGraph T) (w : World S N E)
      (out : HistoryGraph T × World S N E) : Type 0 where
    pub same : out.0.registry ≡ g.registry
    pub loading : IsLoading out.0 out.1
    pub nodes :
        (k : S.Key) (p : Ptr)
        → (get_node out.0 k ≡ some p) ↔ (Memᴰ (k, p) es ⊎ (get_node g k ≡ some p))
    pub later : Later w.heap out.1.heap
    pub counts : (roots : List Ptr) → IsCounted roots w.heap → IsCounted roots out.1.heap
    pub held : (rp : Ptr) → holders out.1 rp ≡ holders w rp
    pub strong : (q : Ptr) → strong_count out.1.heap q ≡ strong_count w.heap q
    pub joined :
        (k : S.Key) (p : Ptr)
        → Memᴰ (k, p) es
        → 0 < strong_count w.heap p
        → registry_of out.1.heap p ≡ some g.registry
    pub apart :
        (q : Ptr)
        → ((k : S.Key) → Memᴰ (k, q) es → ⊥)
        → registry_of out.1.heap q ≡ registry_of w.heap q

  module _ (g : HistoryGraph T) (w : World S N E) (l : IsLoading g w) (k : S.Key) (p : Ptr)
      (i : IsWaiting g w (k, p)) where
    abbrev step_world : World S N E
    step_world = put_registry (set_register p g.registry w) g.registry r

    known_id : get_id r p ≡ some k
    unfolding get_id
    known_id = b.id_of k p i.listed

    unknown : get_node_id g w p ≡ none
    unfolding get_node_id Option.bind
    unknown = rw (l.present, known_id, i.missing) refl

    registers : try_register_in p g.registry w ≡ (some k, step_world)
    unfolding try_register_in
    registers = let added = add_node-known r p k known_id in rw (i.outside, l.present, added) refl

    loaded_node : insert_node p g w ≡ (some k, put_node g k p, step_world)
    loaded_node = insert_node-result p g w (set_register p g.registry w) r k unknown registers

    step_found :
        (j : S.Key) → get_node (put_node g k p) j ≡ (if S.key_eq k j then some p else get_node g j)
    step_found j =
        get-insert_alone T g.nodes k
          (λ m q at slot. S.slot-eq Ptr r.nodes m k q p (l.known m q at) i.listed slot) j p

    step-IsLoading : IsLoading (put_node g k p) step_world
    step-IsLoading = record {
      present =
          ground (
            arith,
            registry_at-put (set_register p g.registry w) g.registry g.registry r l.present,
          );
      known = λ j q at. elim (Bool-cases (S.key_eq k j)) [
        | inl here ↦
            let is : p ≡ q = ground (arith, step_found j) in
            subst (λ m. S.get Ptr r.nodes m ≡ some q) ((S.key_eq_iff k j).0 here)
              (i.listed ∙ ap (λ a. some a) is)
        | inr other ↦ l.known j q (ground (arith, step_found j))
      ];
    }

    step-Later : Later w.heap step_world.heap
    step-Later =
        Later-modify w.heap p (over_inner (set_registry (some g.registry))) (λ c at live. refl)
          (λ c at z. z)

    step-IsCounted : (roots : List Ptr) → IsCounted roots w.heap → IsCounted roots step_world.heap
    step-IsCounted roots c =
        IsCounted-keep c p (over_inner (set_registry (some g.registry))) (λ b. (refl, refl))

    step_strong : (q : Ptr) → strong_count step_world.heap q ≡ strong_count w.heap q
    step_strong q = strong-same w.heap p q (over_inner (set_registry (some g.registry))) (λ c. refl)

    step_registry :
        (q : Ptr)
        → registry_of step_world.heap q ≡ (
            if p == q
            then (if strong_count w.heap p == 0 then none else some g.registry)
            else registry_of w.heap q)
    step_registry q = registry_of-set w.heap p q (some g.registry)

    -- What waits for another id still waits.
    step-IsWaiting :
        (e : S.Key × Ptr) → k ≢ e.0 → IsWaiting g w e → IsWaiting (put_node g k p) step_world e
    step-IsWaiting e apart a =
        let other : S.key_eq k e.0 ≡ false = ground (arith, S.key_eq_iff k e.0) in
        record {
          listed = a.listed;
          outside = elim (Bool-cases (p == e.1)) [
            | inl same ↦
                let is : p ≡ e.1 = (==_iff p e.1).0 same in
                let here : r.ptr_to_id p ≡ some k = b.id_of k p i.listed in
                let there : r.ptr_to_id e.1 ≡ some e.0 = b.id_of e.0 e.1 a.listed in
                let moved : r.ptr_to_id p ≡ some e.0 = ap r.ptr_to_id is ∙ there in
                absurd (apart cc)
            | inr differ ↦ step_registry e.1 ∙ rw differ a.outside
          ];
          missing = step_found e.0 ∙ rw other a.missing;
        }

  -- A node has one id in the registry.
  not_waiting :
      (es : List (S.Key × Ptr)) (g : HistoryGraph T) (w : World S N E) (k : S.Key) (p : Ptr)
      → S.get Ptr r.nodes k ≡ some p
      → All (λ e. k ≢ e.0) es
      → All (IsWaiting g w) es
      → (j : S.Key) → Memᴰ (j, p) es
      → ⊥
  not_waiting [] g w k p listed apart waiting j there = absurd (Memᴰ.not-nil there)
  not_waiting ((i, q) ∷ es) g w k p listed (other, apart) (a, waiting) j there =
      elim (Memᴰ.cases_cons there) [
        | inl here ↦
            let is : p ≡ q = ap (λ e. e.1) here in
            let mine : r.ptr_to_id p ≡ some k = b.id_of k p listed in
            let its : r.ptr_to_id q ≡ some i = b.id_of i q a.listed in
            let moved : r.ptr_to_id p ≡ some i = ap r.ptr_to_id is ∙ its in other cc
        | inr later ↦ not_waiting es g w k p listed apart waiting j later
      ]

  -- Inserting the nodes of the entries, one after the other
  pub insert_all-Loaded :
      (es : List (S.Key × Ptr)) (g : HistoryGraph T) (w : World S N E)
      → Once es
      → All (IsWaiting g w) es
      → IsLoading g w
      → Loaded es g w (insert_all (map (λ e. e.1) es) g w)
  unfolding insert_all
  insert_all-Loaded [] g w once waiting l = record {
    same = refl;
    loading = l;
    nodes = λ k p. (
      λ at. inr at,
      λ there. elim there [ inl listed ↦ absurd (Memᴰ.not-nil listed) | inr at ↦ at ],
    );
    later = Later-refl w.heap;
    counts = λ roots c. c;
    held = λ rp. refl;
    strong = λ q. refl;
    joined = λ k p there. absurd (Memᴰ.not-nil there);
    apart = λ q out. refl;
  }
  insert_all-Loaded ((k, p) ∷ es) g w (apart, once) (i, waiting) l =
      let g1 = put_node g k p in
      let w1 = step_world g w l k p i in
      let still : All (IsWaiting g1 w1) es =
        All-zip es (step-IsWaiting g w l k p i) apart waiting in
      let rest = insert_all-Loaded es g1 w1 once still (step-IsLoading g w l k p i) in
      let out = insert_all (map (λ e. e.1) es) g1 w1 in
      let eq : insert_all (p ∷ map (λ e. e.1) es) g w ≡ insert_all (map (λ e. e.1) es) g1 w1 =
        ap (λ o. insert_all (map (λ e. e.1) es) o.1 o.2) (loaded_node g w l k p i) in
      subst (Loaded ((k, p) ∷ es) g w) (sym eq) (record {
        same = rest.same;
        loading = rest.loading;
        nodes = λ j q. (
          λ at. elim ((rest.nodes j q).0 at) [
            | inl later ↦ inl (Memᴰ.tail later)
            | inr before ↦ elim (Bool-cases (S.key_eq k j)) [
              | inl here ↦
                  let is : p ≡ q = ground (arith, step_found g w l k p i j) in
                  let key = (S.key_eq_iff k j).0 here in
                  inl (Memᴰ.head (ap (λ m. (m, q)) (sym key) ∙ ap (λ n. (k, n)) (sym is)))
              | inr other ↦ inr (ground (arith, step_found g w l k p i j))
            ]
          ],
          λ there. (rest.nodes j q).1 (elim there [
            | inl listed ↦ elim (Memᴰ.cases_cons listed) [
              | inl here ↦
                  let key : j ≡ k = ap (λ e. e.0) here in
                  let is : q ≡ p = ap (λ e. e.1) here in
                  inr (
                    step_found g w l k p i j
                    ∙ rw ((S.key_eq_iff k j).1 (sym key)) (ap (λ a. some a) (sym is)))
              | inr later ↦ inl later
            ]
            | inr at ↦ elim (Bool-cases (S.key_eq k j)) [
              | inl same ↦
                  let before : get_node g k ≡ some q =
                    subst (λ m. get_node g m ≡ some q) (sym ((S.key_eq_iff k j).0 same)) at in
                  absurd (ground (arith, i.missing))
              | inr other ↦ inr (ground (arith, step_found g w l k p i j))
            ]
          ]),
        );
        later = Later-trans (step-Later g w l k p i) rest.later;
        counts = λ roots c. rest.counts roots (step-IsCounted g w l k p i roots c);
        held = λ rp. rest.held rp ∙ holders-put (set_register p g.registry w) g.registry rp r;
        strong = λ q. rest.strong q ∙ step_strong g w l k p i q;
        joined = λ j q there live. elim (Memᴰ.cases_cons there) [
          | inl here ↦
              let is : q ≡ p = ap (λ e. e.1) here in
              let alive : 0 < strong_count w.heap p =
                subst (λ n. 0 < strong_count w.heap n) is live in
              subst (λ n. registry_of out.1.heap n ≡ some g.registry) (sym is)
                (rest.apart p (not_waiting es g w k p i.listed apart waiting)
                  ∙ step_registry g w l k p i p
                  ∙ ground arith)
          | inr later ↦ rest.joined j q later (ground (arith, step_strong g w l k p i q))
        ];
        apart = λ q elsewhere.
            let other : (p == q) ≡ false = elim (Bool-cases (p == q)) [
              | inl same ↦
                  let is : q ≡ p = sym ((==_iff p q).0 same) in
                  absurd (elsewhere k (Memᴰ.head (ap (λ n. (k, n)) is)))
              | inr differ ↦ differ
            ] in
            rest.apart q (λ m later. elsewhere m (Memᴰ.tail later))
            ∙ step_registry g w l k p i q
            ∙ rw other refl;
      })
