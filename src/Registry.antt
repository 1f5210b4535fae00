-- ===== src/Registry.antt =====
-- src/registry.rs: ids for nodes. A registry keeps a slot map from ids to weak references and the
-- inverse map from raw pointers to ids. The dynamic borrows of `RefCell` are not modelled.
pub mod Bijection
pub mod Collecting
pub mod Cleaning
pub mod Refining
use relrc.Prelude.{
  ℕ, ◌+◌, ◌≡◌, Bool, true, false, Option, none, some, List, [], ◌∷◌, map, ◌==◌, if◌then◌else◌,
}
use relrc.SlotMap.{SlotMaps}
use relrc.Object.{Ptr, Heap, deref, clone, strong_count, upgrade}

abbrev pub is_some {ℓ} : {A : Type ℓ} → Option A → Bool
is_some none = false
is_some (some _) = true

-- A `HashMap<*const InnerData, NodeId>` is the function that `get` computes.
abbrev pub PtrMap : Type 0 → Type 0
PtrMap K = Ptr → Option K

abbrev pub map_insert : {K : Type 0} → PtrMap K → Ptr → K → PtrMap K
map_insert m p k q = if p == q then some k else m q

abbrev pub map_remove : {K : Type 0} → PtrMap K → Ptr → PtrMap K
map_remove m p q = if p == q then none else m q

pub record Registry (S : SlotMaps) : Type 0 where
  pub nodes : S.SlotMap Ptr
  pub ptr_to_id : PtrMap S.Key

-- `Registry::new`
unfoldable pub new : (S : SlotMaps) → Registry S
new S = record { nodes = S.with_key Ptr; ptr_to_id = λ _. none }

-- The inverse map collected from a slot map's entries; a later entry replaces an earlier one.
unfoldable pub collect_ids : {K : Type 0} → PtrMap K → List (K × Ptr) → PtrMap K
collect_ids m [] = m
collect_ids m ((id, p) ∷ es) = collect_ids (map_insert m p id) es

module _ {S : SlotMaps} where
  -- `Registry::from_slotmap`
  unfoldable pub from_slotmap : S.SlotMap Ptr → Registry S
  unfolding collect_ids
  from_slotmap nodes = record {
    nodes = nodes;
    ptr_to_id = collect_ids (λ _. none) (S.iter Ptr nodes);
  }

  unfoldable pub get_id : Registry S → Ptr → Option S.Key
  get_id r p = r.ptr_to_id p

  insert_new : Registry S → Ptr → S.Key × Registry S
  insert_new r p =
      let (id, nodes) = S.insert Ptr r.nodes p in
      (id, record { nodes = nodes; ptr_to_id = map_insert r.ptr_to_id p id })

  or_insert : Registry S → Ptr → Option S.Key → S.Key × Registry S
  or_insert r p (some id) = (id, r)
  or_insert r p none = insert_new r p

  -- `Registry::add_node`: the known id, or a new entry in both maps.
  unfoldable pub add_node : Registry S → Ptr → S.Key × Registry S
  unfolding get_id insert_new or_insert
  add_node r p = or_insert r p (get_id r p)

  or_add_node : Registry S → Ptr → Option S.Key → S.Key × Registry S
  or_add_node r p (some id) = (id, r)
  or_add_node r p none = add_node r p

  unfoldable pub get_id_or_insert : Registry S → Ptr → S.Key × Registry S
  unfolding get_id or_add_node
  get_id_or_insert r p = or_add_node r p (get_id r p)

  unfoldable pub contains : Registry S → Ptr → Bool
  unfolding get_id
  contains r p = is_some (get_id r p)

  -- `Registry::get`: a strong reference to the node, if it is alive; the heap counts it.
  unfoldable pub get : {N E : Type 0} → Registry S → S.Key → Heap N E → Option Ptr × Heap N E
  unfolding upgrade
  get r id h = elim (S.get Ptr r.nodes id) [ none ↦ (none, h) | some weak ↦ upgrade weak h ]

  -- `Registry::contains_id`. The reference that `get` returns is dropped again at once.
  unfoldable pub contains_id : {N E : Type 0} → Registry S → S.Key → Heap N E → Bool
  unfolding get
  contains_id r id h = is_some (get r id h).0

  unfoldable pub len : Registry S → ℕ
  len r = S.len Ptr r.nodes

  unfoldable pub is_empty : Registry S → Bool
  unfolding len
  is_empty r = len r == 0

  drop_ptr : Registry S → S.SlotMap Ptr → Option Ptr → Registry S
  drop_ptr r nodes none = record r { nodes = nodes }
  drop_ptr r nodes (some weak) = record { nodes = nodes; ptr_to_id = map_remove r.ptr_to_id weak }

  -- `Registry::remove`: both maps lose the entry, if the id was in use.
  unfoldable pub remove : Registry S → S.Key → Registry S
  unfolding drop_ptr
  remove r id = let (weak, nodes) = S.remove Ptr r.nodes id in drop_ptr r nodes weak

  unfoldable pub from_nodes : Registry S → List Ptr → Registry S
  from_nodes r [] = r
  from_nodes r (p ∷ ps) = from_nodes (add_node r p).1 ps

-- The entries whose node cannot be upgraded. A reference that `upgrade` gave is dropped at once.
unfoldable pub dead_entries : {K N E : Type 0} → Heap N E → List (K × Ptr) → List (K × Ptr)
unfolding upgrade
dead_entries h [] = []
dead_entries h ((id, weak) ∷ es) =
    if is_some (upgrade weak h).0 then dead_entries h es else (id, weak) ∷ dead_entries h es

unfoldable pub remove_ptrs : {K : Type 0} → PtrMap K → List (K × Ptr) → PtrMap K
remove_ptrs m [] = m
remove_ptrs m ((_, p) ∷ es) = remove_ptrs (map_remove m p) es

-- The entries whose node can be upgraded, with a strong reference each.
live_step :
    {K N E : Type 0}
    → K
    → Option Ptr × Heap N E
    → (Heap N E → List (K × Ptr) × Heap N E)
    → List (K × Ptr) × Heap N E
live_step id (none, h) rest = rest h
live_step id (some p, h) rest = let (es, h') = rest h in ((id, p) ∷ es, h')

unfoldable pub live_entries :
    {K N E : Type 0} → List (K × Ptr) → Heap N E → List (K × Ptr) × Heap N E
unfolding live_step upgrade
live_entries [] h = ([], h)
live_entries ((id, weak) ∷ es) h = live_step id (upgrade weak h) (live_entries es)

unfoldable pub remove_ids : (S : SlotMaps) → S.SlotMap Ptr → List (S.Key × Ptr) → S.SlotMap Ptr
remove_ids S m [] = m
remove_ids S m ((id, _) ∷ es) = remove_ids S (S.remove Ptr m id).1 es

module _ {S : SlotMaps} where
  -- `Registry::free_node_ids`
  unfoldable pub free_node_ids : {N E : Type 0} → Registry S → Heap N E → ℕ × Registry S
  unfolding dead_entries remove_ids remove_ptrs len
  free_node_ids r h =
      let dead = dead_entries h (S.iter Ptr r.nodes) in
      let r' : Registry S = record {
        nodes = remove_ids S r.nodes dead;
        ptr_to_id = remove_ptrs r.ptr_to_id dead;
      } in
      (len r', r')

  -- `Registry::iter`, run to its end.
  unfoldable pub iter : {N E : Type 0} → Registry S → Heap N E → List (S.Key × Ptr) × Heap N E
  unfolding live_entries
  iter r h = live_entries (S.iter Ptr r.nodes) h
