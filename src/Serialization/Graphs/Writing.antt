-- ===== src/Serialization/Graphs/Writing.antt =====
-- What `HistoryGraph::to_serialized` of src/serialization.rs saves.
use mathlib.Core.Option
use mathlib.Core.List.{Memᴰ}
use mathlib.Core.List.Memᴰ
use relrc.Prelude.{
  ◌≡◌, refl, sym, ◌∙◌, subst, ap, inl, inr, some, List, [], ◌∷◌, ◌++◌, arith, Option-cases,
  Bool-cases, length,
}
use relrc.SlotMap.{SlotMaps, SecondaryMaps}
use relrc.Object.{Ptr, Heap, deref, upgrade}
use relrc.World.{World, registry_at}
use relrc.Registry
use relrc.Registry.{Registry, get_id, get_id_or_insert}
use relrc.Registry.Bijection.{Bijective, add_node-Bijective, add_node-get_id, add_node_keeps}
use relrc.Ancestors.{Walk, collect, all_ancestors}
use relrc.Drop.{parents_of}
use relrc.History.{HistoryGraph, all_node_ids}
use relrc.Serialization.Format.{SerializedInnerData, SerializedRegistry, SerializedHistoryGraph}
use relrc.Serialization.Saving
use relrc.Serialization.Graphs.Keeping.{has_key_iff}
use relrc.Serialization.Graphs.{has_key, ids_or_insert, ancestor_ids, to_serialized}

module _ {S : SlotMaps} where
  -- Registry `s` lists what `r` lists.
  pub record Extends (r s : Registry S) : Type 0 where
    pub keeps : (i : S.Key) (p : Ptr) → S.get Ptr r.nodes i ≡ some p → S.get Ptr s.nodes i ≡ some p
    pub bijective : Bijective s

  get_id_or_insert-Extends :
      (r : Registry S) (p : Ptr)
      → Bijective r
      → let out = get_id_or_insert r p in Extends r out.1 × (S.get Ptr out.1.nodes out.0 ≡ some p)
  unfolding get_id_or_insert get_id
  get_id_or_insert-Extends r p b = elim (Option-cases (get_id r p)) [
    | inl e ↦ rw e (
      record {
        keeps = λ i q at. add_node_keeps r p i q b at;
        bijective = add_node-Bijective r p b;
      },
      (add_node-get_id r p b).1,
    )
    | inr (k, e) ↦ rw e (record { keeps = λ i q at. at; bijective = b }, b.ptr_of k p e)
  ]

  -- Each node of the list has its id among those returned.
  ids_or_insert-Extends :
      (r : Registry S) (ns : List Ptr)
      → Bijective r
      → let out = ids_or_insert r ns in
        Extends r out.1
        × ((q : Ptr) → Memᴰ q ns → (k : S.Key) × Memᴰ k out.0 × (S.get Ptr out.1.nodes k ≡ some q))
  unfolding ids_or_insert
  ids_or_insert-Extends r [] b =
      (record { keeps = λ i q at. at; bijective = b }, λ q there. absurd (Memᴰ.not-nil there))
  ids_or_insert-Extends r (n ∷ ns) b =
      let (first, at) = get_id_or_insert-Extends r n b in
      let (rest, others) = ids_or_insert-Extends (get_id_or_insert r n).1 ns first.bijective in
      (
        record { keeps = λ i q e. rest.keeps i q (first.keeps i q e); bijective = rest.bijective },
        λ q there. elim (Memᴰ.cases_cons there) [
          | inl here ↦ (
            (get_id_or_insert r n).0,
            Memᴰ.head refl,
            rest.keeps _ q (at ∙ ap (λ m. some m) (sym here)),
          )
          | inr later ↦ let (k, listed, e) = others q later in (k, Memᴰ.tail listed, e)
        ],
      )

module _ {N E : Type 0} (h : Heap N E) where
  -- The iterator of `all_ancestors` yields the node itself.
  all_ancestors-self :
      (p : Ptr) (out : List Ptr) (end : Walk) → all_ancestors h p ≡ some (out, end) → Memᴰ p out
  unfolding all_ancestors collect
  all_ancestors-self p out end ran =
      let on : Walk = record { seen = p ∷ []; stack = parents_of (deref h p) } in
      elim (Option-cases (collect h (length h) on)) [
        | inl stuck ↦ absurd (ground arith)
        | inr ((ps, e), rest) ↦
            let is : out ≡ p ∷ ps = ground arith in
            subst (λ os. Memᴰ p os) (sym is) (Memᴰ.head refl)
      ]

module _ {S : SlotMaps} {N E : Type 0} (h : Heap N E) where
  registry_get-listed :
      (r : Registry S) (k : S.Key) (p : Ptr)
      → (Registry.get r k h).0 ≡ some p
      → S.get Ptr r.nodes k ≡ some p
  unfolding Registry.get upgrade
  registry_get-listed r k p got = elim (Option-cases (S.get Ptr r.nodes k)) [
    | inl e ↦ absurd (ground arith)
    | inr (q, e) ↦ ground arith
  ]

  -- The registry grows, and each of the ids is listed and among those returned.
  ancestor_ids-Extends :
      (r : Registry S) (ns : List S.Key) (ids : List S.Key) (s : Registry S)
      → Bijective r
      → ancestor_ids h r ns ≡ some (ids, s)
      → Extends r s
        × ((n : S.Key) → Memᴰ n ns → Memᴰ n ids × (p : Ptr) × (S.get Ptr s.nodes n ≡ some p))
  unfolding ancestor_ids Option.bind
  ancestor_ids-Extends r [] ids s b ran =
      let same : r ≡ s = cc in
      (
        subst (Extends r) same (record { keeps = λ i q at. at; bijective = b }),
        λ n there. absurd (Memᴰ.not-nil there),
      )
  ancestor_ids-Extends r (n ∷ ns) ids s b ran = elim (Option-cases (Registry.get r n h).0) [
    | inl gone ↦ absurd (ground arith)
    | inr (p, got) ↦ elim (Option-cases (all_ancestors h p)) [
      | inl stuck ↦ absurd (ground arith)
      | inr ((out, end), walked) ↦
          let (first, listed) = ids_or_insert-Extends r out b in
          elim (Option-cases (ancestor_ids h (ids_or_insert r out).1 ns)) [
            | inl panics ↦ absurd (ground arith)
            | inr ((rest, t), more) ↦
                let (later, others) =
                  ancestor_ids-Extends (ids_or_insert r out).1 ns rest t first.bijective more in
                let all : ids ≡ (ids_or_insert r out).0 ++ rest = ground arith in
                let same : s ≡ t = ground arith in
                (
                  record {
                    keeps = λ i q at.
                        subst (λ (u : Registry S). S.get Ptr u.nodes i ≡ some q) (sym same)
                          (later.keeps i q (first.keeps i q at));
                    bijective = subst (λ u. Bijective u) (sym same) later.bijective;
                  },
                  λ k there. elim (Memᴰ.cases_cons there) [
                    | inl here ↦
                        let (j, noted, at_j) = listed p (all_ancestors-self h p out end walked) in
                        let at = first.keeps n p (registry_get-listed r n p got) in
                        let id_j = first.bijective.id_of j p at_j in
                        let id_n = first.bijective.id_of n p at in
                        let one : j ≡ k = cc in
                        (
                          subst (λ js. Memᴰ k js) (sym all)
                              (Memᴰ.append_left rest
                                (subst (λ i. Memᴰ i (ids_or_insert r out).0) one noted)),
                          p,
                          subst (λ (u : Registry S). S.get Ptr u.nodes k ≡ some p) (sym same)
                              (later.keeps k p (
                                subst (λ i. S.get Ptr (ids_or_insert r out).1.nodes i ≡ some p)
                                  (sym here) at)),
                        )
                    | inr after ↦
                        let (noted, q, at) = others k after in
                        (
                          subst (λ js. Memᴰ k js) (sym all) (Memᴰ.append_right _ noted),
                          q,
                          subst (λ (u : Registry S). S.get Ptr u.nodes k ≡ some q) (sym same) at,
                        )
                  ],
                )
          ]
    ]
  ]

-- What `to_serialized` saved, against the registry `registry` with the ancestors that it inserted
pub record IsWritten {S : SlotMaps} {T : SecondaryMaps S} {N E : Type 0} (g : HistoryGraph T)
    (w : World S N E) (r : Registry S) (ser : SerializedHistoryGraph S N E) : Type 0 where
  pub registry : Registry S
  pub extends : Extends r registry
  pub whole : SerializedRegistry S N E
  pub returned : Saving.to_serialized registry w.heap ≡ some whole
  pub ids : ser.nodes ≡ all_node_ids g
  pub taken :
      (i : S.Key) (v : SerializedInnerData S.Key N E)
      → S.get (SerializedInnerData S.Key N E) ser.registry.nodes i ≡ some v
      → S.get (SerializedInnerData S.Key N E) whole.nodes i ≡ some v
  pub nodes :
      (i : S.Key)
      → Memᴰ i (all_node_ids g)
      → (p : Ptr) × (S.get Ptr registry.nodes i ≡ some p)
        × (S.get (SerializedInnerData S.Key N E) ser.registry.nodes i
            ≡ S.get (SerializedInnerData S.Key N E) whole.nodes i)

module _ {S : SlotMaps} {T : SecondaryMaps S} {N E : Type 0} (g : HistoryGraph T) (w : World S N E)
    (r : Registry S) (present : registry_at w g.registry ≡ some r) (b : Bijective r)
    (ser : SerializedHistoryGraph S N E) where
  pub to_serialized-IsWritten : to_serialized g w ≡ some ser → IsWritten g w r ser
  unfolding to_serialized Option.bind
  to_serialized-IsWritten saved =
      let Ser = SerializedInnerData S.Key N E in
      elim (Option-cases (ancestor_ids w.heap r (all_node_ids g))) [
        | inl panics ↦ absurd (ground arith)
        | inr ((ids, s), walked) ↦ elim (Option-cases (Saving.to_serialized s w.heap)) [
          | inl panics ↦ absurd (ground arith)
          | inr (whole, made) ↦
              let (extends, themselves) =
                ancestor_ids-Extends w.heap r (all_node_ids g) ids s b walked in
              let out : SerializedHistoryGraph S N E = record {
                nodes = all_node_ids g;
                registry = record { nodes = S.retain Ser whole.nodes (λ k _. has_key S ids k) };
              } in
              let is : out ≡ ser = ground arith in
              let get = λ (i : S.Key). S.get-retain Ser whole.nodes (λ k _. has_key S ids k) i in
              subst (IsWritten g w r) is (record {
                registry = s;
                extends = extends;
                whole = whole;
                returned = made;
                ids = refl;
                taken = λ i v e. elim (Option-cases (S.get Ser whole.nodes i)) [
                  | inl gone ↦ absurd (ground (arith, get i))
                  | inr (u, at) ↦ elim (Bool-cases (has_key S ids i)) [
                    | inl kept ↦ ground (arith, get i)
                    | inr out ↦ absurd (ground (arith, get i))
                  ]
                ];
                nodes = λ i there.
                    let (noted, p, at) = themselves i there in
                    let kept = (has_key_iff S ids i).1 noted in
                    (
                      p,
                      at,
                      get i ∙ (elim (Option-cases (S.get Ser whole.nodes i)) [
                        | inl gone ↦ rw gone refl
                        | inr (u, e) ↦ rw (e, kept) refl
                      ]),
                    );
              })
        ]
      ]
