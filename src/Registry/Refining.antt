-- ===== src/Registry/Refining.antt =====
-- What src/registry.rs promises of ids, and that its two maps keep it: to a client a registry is a map
-- from ids to nodes, in which each node has one id at most.
use relrc.Prelude.{
  ◌≡◌, ◌≢◌, refl, inl, inr, Bool, true, false, Option, none, some, List, [], ◌∷◌, arith,
  Option-cases, if◌then◌else◌,
}
use relrc.SlotMap.{SlotMaps}
use relrc.Object.{Ptr}
use relrc.Registry.{Registry, get_id, add_node, get_id_or_insert, contains, remove}
use relrc.Registry.Bijection.{
  Bijective, add_node-Bijective, get-add_node, get-remove, remove-Bijective, add_node-fresh,
  add_node-known,
}

-- The calls of a client, and what they return
pub data Call (K : Type 0) : Type 0 where
  register register_or_find find ask : Ptr → Call K
  forget : K → Call K

pub data Answer (K : Type 0) : Type 0 where
  key : K → Answer K
  maybe_key : Option K → Answer K
  truth : Bool → Answer K
  nothing : Answer K

module _ (S : SlotMaps) where
  abbrev pub View : Type 0
  View = S.Key → Option Ptr

  abbrev pub Same : View → View → Type 0
  Same v u = (i : S.Key) → u i ≡ v i

  abbrev pub Unknown : View → Ptr → Type 0
  Unknown v p = (i : S.Key) → v i ≢ some p

  -- A node that has no id gets one that is not in use.
  abbrev pub Added : View → Ptr → S.Key → View → Type 0
  Added v p i u =
      Unknown v p × (v i ≡ none) × ((j : S.Key) → u j ≡ (if S.key_eq i j then some p else v j))

  -- What a call may answer, and how the map is then
  pub data Allows (v : View) : Call S.Key → Answer S.Key → View → Type 0 where
    registers_old :
        (p : Ptr) (i : S.Key) (u : View) → v i ≡ some p → Same v u → Allows v (register p) (key i) u
    registers_new :
        (p : Ptr) (i : S.Key) (u : View) → Added v p i u → Allows v (register p) (key i) u
    finds_old :
        (p : Ptr) (i : S.Key) (u : View)
        → v i ≡ some p
        → Same v u
        → Allows v (register_or_find p) (key i) u
    finds_new :
        (p : Ptr) (i : S.Key) (u : View) → Added v p i u → Allows v (register_or_find p) (key i) u
    found :
        (p : Ptr) (i : S.Key) (u : View)
        → v i ≡ some p
        → Same v u
        → Allows v (find p) (maybe_key (some i)) u
    missing : (p : Ptr) (u : View) → Unknown v p → Same v u → Allows v (find p) (maybe_key none) u
    answers_yes :
        (p : Ptr) (i : S.Key) (u : View) → v i ≡ some p → Same v u → Allows v (ask p) (truth true) u
    answers_no : (p : Ptr) (u : View) → Unknown v p → Same v u → Allows v (ask p) (truth false) u
    forgets :
        (i : S.Key) (u : View)
        → ((j : S.Key) → u j ≡ (if S.key_eq i j then none else v j))
        → Allows v (forget i) nothing u

  -- What a client may see of a sequence of calls
  pub data Trace : View → List (Call S.Key × Answer S.Key) → View → Type 0 where
    ended : {v : View} → Trace v [] v
    after :
        {c : Call S.Key} {a : Answer S.Key} {v u t : View} {rest : List (Call S.Key × Answer S.Key)}
        → Allows v c a u
        → Trace u rest t
        → Trace v ((c, a) ∷ rest) t

module _ {S : SlotMaps} where
  abbrev pub view : Registry S → View S
  view r i = S.get Ptr r.nodes i

  -- The functions of `Registry` that the calls stand for
  unfoldable pub perform : Call S.Key → Registry S → Answer S.Key × Registry S
  unfolding get_id add_node get_id_or_insert contains remove
  perform (register p) r = let (i, s) = add_node r p in (key i, s)
  perform (register_or_find p) r = let (i, s) = get_id_or_insert r p in (key i, s)
  perform (find p) r = (maybe_key (get_id r p), r)
  perform (ask p) r = (truth (contains r p), r)
  perform (forget i) r = (nothing, remove r i)

  unfoldable pub perform_all :
      List (Call S.Key) → Registry S → List (Call S.Key × Answer S.Key) × Registry S
  unfolding perform
  perform_all [] r = ([], r)
  perform_all (c ∷ cs) r =
      let (a, s) = perform c r in let (rest, t) = perform_all cs s in ((c, a) ∷ rest, t)

  no_id_Unknown :
      (r : Registry S) (p : Ptr) → Bijective r → get_id r p ≡ none → Unknown S (view r) p
  unfolding get_id
  no_id_Unknown r p b gone i there = ground (arith, b.id_of i p there)

  add_node-Added :
      (r : Registry S) (p : Ptr)
      → Bijective r
      → get_id r p ≡ none
      → Added S (view r) p (add_node r p).0 (view (add_node r p).1)
  add_node-Added r p b gone =
      (no_id_Unknown r p b gone, add_node-fresh r p gone, λ j. get-add_node r p j b)

  perform-Allows :
      (c : Call S.Key) (r : Registry S)
      → Bijective r
      → Allows S (view r) c (perform c r).0 (view (perform c r).1) × Bijective (perform c r).1
  unfolding perform get_id_or_insert contains
  perform-Allows (register p) r b = elim (Option-cases (get_id r p)) [
    | inl gone ↦ (registers_new p _ _ (add_node-Added r p b gone), add_node-Bijective r p b)
    | inr (i, known) ↦
        rw (add_node-known r p i known)
          (registers_old p i (view r) (b.ptr_of i p known) (λ j. refl), b)
  ]
  perform-Allows (register_or_find p) r b = elim (Option-cases (get_id r p)) [
    | inl gone ↦ rw gone (finds_new p _ _ (add_node-Added r p b gone), add_node-Bijective r p b)
    | inr (i, known) ↦ rw known (finds_old p i (view r) (b.ptr_of i p known) (λ j. refl), b)
  ]
  perform-Allows (find p) r b = elim (Option-cases (get_id r p)) [
    | inl gone ↦ rw gone (missing p (view r) (no_id_Unknown r p b gone) (λ j. refl), b)
    | inr (i, known) ↦ rw known (found p i (view r) (b.ptr_of i p known) (λ j. refl), b)
  ]
  perform-Allows (ask p) r b = elim (Option-cases (get_id r p)) [
    | inl gone ↦ rw gone (answers_no p (view r) (no_id_Unknown r p b gone) (λ j. refl), b)
    | inr (i, known) ↦ rw known (answers_yes p i (view r) (b.ptr_of i p known) (λ j. refl), b)
  ]
  perform-Allows (forget i) r b =
      (forgets i (view (remove r i)) (λ j. get-remove r i j), remove-Bijective r i b)

  -- Whatever calls a client makes of a registry whose two maps are inverse to each other, the answers
  -- are those of a map from ids to nodes in which a node gets one id, that is not in use; and the two
  -- maps stay inverse to each other.
  pub perform_all-Trace :
      (cs : List (Call S.Key)) (r : Registry S)
      → Bijective r
      → Trace S (view r) (perform_all cs r).0 (view (perform_all cs r).1)
        × Bijective (perform_all cs r).1
  unfolding perform_all
  perform_all-Trace [] r b = (ended, b)
  perform_all-Trace (c ∷ cs) r b =
      let (allowed, b') = perform-Allows c r b in
      let (trace, end) = perform_all-Trace cs (perform c r).1 b' in (after allowed trace, end)
