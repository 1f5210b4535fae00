-- ===== src/Serialization/Restoring/Heaps.antt =====
-- What `deserialize_node` does to memory: nodes that are alive stay alive, with their values and edges.
use relrc.Prelude.{
  ℕ, suc, ◌<◌, ◌≡◌, refl, ◌∙◌, inl, inr, none, some, List, [], ◌∷◌, ◌++◌, arith, get_elem?, modify,
  get_elem?-modify, get_elem?-concat, get_elem?_beyond, length, Option-cases,
}
use relrc.Object.{Ptr, RcBox, InnerEdgeData, Heap, strong_count, clone, over_inner, increment}
use relrc.Node.{
  with_parents, incoming_edges, register_from, push_outgoing, downgrade, with_incoming,
}
use relrc.Tracking.{registry_of}
use relrc.Program.Later.{made, made_of}

pub record Grows {N E : Type 0} (h g : Heap N E) : Type 0 where
  pub alive : (p : Ptr) → 0 < strong_count h p → 0 < strong_count g p
  pub same : (p : Ptr) → 0 < strong_count h p → made g p ≡ made h p
  pub registry : (p : Ptr) → 0 < strong_count h p → registry_of g p ≡ registry_of h p

module _ {N E : Type 0} where
  pub Grows-refl : (h : Heap N E) → Grows h h
  Grows-refl h = record { alive = λ p a. a; same = λ p a. refl; registry = λ p a. refl }

  pub Grows-trans : {h g k : Heap N E} → Grows h g → Grows g k → Grows h k
  Grows-trans a b = record {
    alive = λ p live. b.alive p (a.alive p live);
    same = λ p live. b.same p (a.alive p live) ∙ a.same p live;
    registry = λ p live. b.registry p (a.alive p live) ∙ a.registry p live;
  }

  Grows-modify :
      (h : Heap N E) (p : Ptr) (f : RcBox N E → RcBox N E)
      → ((b : RcBox N E) → 0 < b.strong → 0 < (f b).strong)
      → ((b : RcBox N E) → made_of (some (f b)) ≡ made_of (some b))
      → ((b : RcBox N E) → (f b).inner.registry ≡ b.inner.registry)
      → Grows h (modify h p f)
  Grows-modify h p f live keep stay = record {
    alive = λ q a. elim (Option-cases (get_elem? h q)) [
      | inl e ↦ ground (arith, get_elem?-modify h p q f)
      | inr (b, e) ↦ ground (arith, get_elem?-modify h p q f, live b)
    ];
    same = λ q a. elim (Option-cases (get_elem? h q)) [
      | inl e ↦ ground (arith, get_elem?-modify h p q f)
      | inr (b, e) ↦ ground (arith, get_elem?-modify h p q f, keep b)
    ];
    registry = λ q a. elim (Option-cases (get_elem? h q)) [
      | inl e ↦ ground (arith, get_elem?-modify h p q f)
      | inr (b, e) ↦ ground (arith, get_elem?-modify h p q f, live b, stay b)
    ];
  }

  pub clone-Grows : (p : Ptr) (h : Heap N E) → Grows h (clone p h)
  unfolding clone
  clone-Grows p h = Grows-modify h p increment (λ b a. omega arith) (λ b. refl) (λ b. refl)

  register_from-Grows :
      (i : ℕ) (es : List (InnerEdgeData E)) (h : Heap N E) → Grows h (register_from i es h)
  unfolding register_from
  register_from-Grows i [] h = Grows-refl h
  register_from-Grows i (e ∷ es) h =
      Grows-trans
        (Grows-modify h e.source (over_inner (push_outgoing (downgrade e i))) (λ b a. a) (λ b. refl)
          (λ b. refl))
        (register_from-Grows (suc i) es _)

  concat-Grows : (h : Heap N E) (b : RcBox N E) → Grows h (h ++ b ∷ [])
  concat-Grows h b = record {
    alive = λ p a. ground (arith, get_elem?-concat h b p, get_elem?_beyond h p);
    same = λ p a. ground (arith, get_elem?-concat h b p, get_elem?_beyond h p);
    registry = λ p a. ground (arith, get_elem?-concat h b p, get_elem?_beyond h p);
  }

  pub with_parents-Grows :
      (value : N) (parents : List (Ptr × E)) (h : Heap N E)
      → Grows h (with_parents value parents h).1
  unfolding with_parents
  with_parents-Grows value parents h =
      Grows-trans (concat-Grows h _) (register_from-Grows 0 (incoming_edges (length h) parents) _)

  pub lt_of_alive : (h : Heap N E) (p : Ptr) → 0 < strong_count h p → p < length h
  lt_of_alive h p alive = ground (arith, get_elem?_beyond h p)

  pub with_parents_new :
      (value : N) (parents : List (Ptr × E)) (h : Heap N E)
      → (with_parents value parents h).0 ≡ length h
  unfolding with_parents
  with_parents_new value parents h = refl

  -- The new node is alive, with the value and the edges that it was given.
  pub with_parents_made :
      (value : N) (parents : List (Ptr × E)) (h : Heap N E)
      → (0 < strong_count (with_parents value parents h).1 (with_parents value parents h).0)
        × (made (with_parents value parents h).1 (with_parents value parents h).0
            ≡ some (value, incoming_edges (with_parents value parents h).0 parents))
  unfolding with_parents
  with_parents_made value parents h =
      let es : List (InnerEdgeData E) = incoming_edges (length h) parents in
      let b : RcBox N E = record { strong = 1; inner = with_incoming value es } in
      let grows = register_from-Grows 0 es (h ++ b ∷ []) in
      let live : 0 < strong_count (h ++ b ∷ []) (length h) =
        ground (arith, get_elem?-concat h b (length h)) in
      (
        grows.alive (length h) live,
        grows.same (length h) live ∙ ground (arith, get_elem?-concat h b (length h)),
      )

  -- The new node is in no registry.
  pub with_parents_unregistered :
      (value : N) (parents : List (Ptr × E)) (h : Heap N E)
      → registry_of (with_parents value parents h).1 (with_parents value parents h).0 ≡ none
  unfolding with_parents
  with_parents_unregistered value parents h =
      let es : List (InnerEdgeData E) = incoming_edges (length h) parents in
      let b : RcBox N E = record { strong = 1; inner = with_incoming value es } in
      let grows = register_from-Grows 0 es (h ++ b ∷ []) in
      let live : 0 < strong_count (h ++ b ∷ []) (length h) =
        ground (arith, get_elem?-concat h b (length h)) in
      grows.registry (length h) live ∙ ground (arith, get_elem?-concat h b (length h))
