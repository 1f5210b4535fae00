-- ===== src/Registry/Bijection.antt =====
-- The two maps of a registry are inverse to each other.
use relrc.Prelude.{Option, if◌then◌else◌, ◌≡◌, refl, none, some, inl, inr, arith, Option-cases}
use relrc.SlotMap.{SlotMaps}
use relrc.Object.{Ptr}
use relrc.Registry.{Registry, new, add_node, get_id, remove, insert_new, drop_ptr}

pub record Bijective {S : SlotMaps} (r : Registry S) : Type 0 where
  pub id_of : (i : S.Key) (p : Ptr) → S.get Ptr r.nodes i ≡ some p → r.ptr_to_id p ≡ some i
  pub ptr_of : (i : S.Key) (p : Ptr) → r.ptr_to_id p ≡ some i → S.get Ptr r.nodes i ≡ some p

pub new-Bijective : (S : SlotMaps) → Bijective (new S)
unfolding new
new-Bijective S = record {
  id_of = λ i p h. ground (arith, S.get-with_key Ptr i);
  ptr_of = λ i p h. cc;
}

module _ {S : SlotMaps} (r : Registry S) (p : Ptr) (b : Bijective r) where
  insert_new-Bijective : r.ptr_to_id p ≡ none → Bijective (insert_new r p).1
  unfolding insert_new
  insert_new-Bijective new = record {
    id_of = λ i q h. ground (
      arith,
      b.id_of i q,
      S.get-insert Ptr r.nodes p i,
      S.key_eq_iff (S.insert Ptr r.nodes p).0 i,
    );
    ptr_of = λ i q h. ground (
      arith,
      b.ptr_of i q,
      S.get-insert Ptr r.nodes p i,
      S.insert-fresh Ptr r.nodes p,
      S.key_eq_iff (S.insert Ptr r.nodes p).0 i,
    );
  }

  -- `add_node` keeps the two maps inverse to each other.
  pub add_node-Bijective : Bijective (add_node r p).1
  unfolding add_node
  add_node-Bijective = elim (Option-cases (r.ptr_to_id p)) [
    | inl e ↦ rw e (insert_new-Bijective e)
    | inr (i, e) ↦ rw e b
  ]

  -- The id that `add_node` returns is the node's in both maps.
  pub add_node-get_id :
      (get_id (add_node r p).1 p ≡ some (add_node r p).0)
      × (S.get Ptr (add_node r p).1.nodes (add_node r p).0 ≡ some p)
  unfolding add_node insert_new
  add_node-get_id = elim (Option-cases (r.ptr_to_id p)) [
    | inl e ↦ rw e (
        let id = (S.insert Ptr r.nodes p).0 in
        (ground arith, ground (arith, S.get-insert Ptr r.nodes p id, S.key_eq_iff id id)))
    | inr (i, e) ↦ rw e (e, b.ptr_of i p e)
  ]

module _ {S : SlotMaps} (r : Registry S) (id : S.Key) (b : Bijective r) where
  drop_ptr-Bijective : Bijective (drop_ptr r (S.remove Ptr r.nodes id).1 (S.get Ptr r.nodes id))
  unfolding drop_ptr
  drop_ptr-Bijective = elim (Option-cases (S.get Ptr r.nodes id)) [
    | inl e ↦ rw e (record {
      id_of =
          λ i q h. ground (arith, b.id_of i q, S.get-remove Ptr r.nodes id i, S.key_eq_iff id i);
      ptr_of =
          λ i q h. ground (arith, b.ptr_of i q, S.get-remove Ptr r.nodes id i, S.key_eq_iff id i);
    })
    | inr (p, e) ↦ rw e (record {
      id_of = λ i q h. ground (
        arith,
        b.id_of i q,
        b.id_of id p,
        b.ptr_of i q,
        S.get-remove Ptr r.nodes id i,
        S.key_eq_iff id i,
      );
      ptr_of = λ i q h.
          ground
            (arith, b.ptr_of i q, b.id_of id p, S.get-remove Ptr r.nodes id i, S.key_eq_iff id i);
    })
  ]

  -- `remove` keeps the two maps inverse to each other.
  pub remove-Bijective : Bijective (remove r id)
  unfolding remove
  remove-Bijective = rw (S.remove-get Ptr r.nodes id) drop_ptr-Bijective

module _ {S : SlotMaps} (r : Registry S) where
  drop_ptr-nodes : (nodes : S.SlotMap Ptr) (o : Option Ptr) → (drop_ptr r nodes o).nodes ≡ nodes
  unfolding drop_ptr
  drop_ptr-nodes nodes none = refl
  drop_ptr-nodes nodes (some p) = refl

  -- `remove` takes one id out of use and leaves every other id as it was.
  pub get-remove :
      (id i : S.Key)
      → S.get Ptr (remove r id).nodes i ≡ (if S.key_eq id i then none else S.get Ptr r.nodes i)
  unfolding remove
  get-remove id i =
      rw (drop_ptr-nodes (S.remove Ptr r.nodes id).1 (S.remove Ptr r.nodes id).0)
        (S.get-remove Ptr r.nodes id i)

  -- `add_node` leads from the id that it returns to the node, and leaves every other id as it was.
  pub get-add_node :
      (p : Ptr) (i : S.Key)
      → Bijective r
      → S.get Ptr (add_node r p).1.nodes i
        ≡ (if S.key_eq (add_node r p).0 i then some p else S.get Ptr r.nodes i)
  unfolding add_node insert_new
  get-add_node p i b = elim (Option-cases (r.ptr_to_id p)) [
    | inl e ↦ rw e (S.get-insert Ptr r.nodes p i)
    | inr (j, e) ↦ rw e (ground (arith, b.ptr_of j p, S.key_eq_iff j i))
  ]

  -- Who was listed stays listed.
  pub add_node_keeps :
      (p : Ptr) (i : S.Key) (q : Ptr)
      → Bijective r
      → S.get Ptr r.nodes i ≡ some q
      → S.get Ptr (add_node r p).1.nodes i ≡ some q
  unfolding add_node insert_new
  add_node_keeps p i q b there = elim (Option-cases (r.ptr_to_id p)) [
    | inl e ↦ rw e (
        ground (
          arith,
          S.get-insert Ptr r.nodes p i,
          S.insert-fresh Ptr r.nodes p,
          S.key_eq_iff (S.insert Ptr r.nodes p).0 i,
        ))
    | inr (j, e) ↦ rw e there
  ]

  -- The id of a node that was not listed was not in use.
  pub add_node-fresh : (p : Ptr) → get_id r p ≡ none → S.get Ptr r.nodes (add_node r p).0 ≡ none
  unfolding add_node insert_new
  add_node-fresh p new = rw new (S.insert-fresh Ptr r.nodes p)

  pub add_node-known : (p : Ptr) (i : S.Key) → get_id r p ≡ some i → add_node r p ≡ (i, r)
  unfolding add_node
  add_node-known p i known = rw known refl
