-- ===== src/SlotMap.antt =====
-- The crate slotmap_fork_lmondada, which src/registry.rs, src/history.rs and src/serialization.rs
-- call and which is not part of this repository: a parameter of the development. The laws are the
-- documented behaviour of `SlotMap`: `insert` hands out a key that is not in use, `get` and
-- `remove` find a value by its key, `iter` runs over the pairs in use, once over each; two keys in use have different
-- slots. A closure of `map` that may panic is a function into `Option`, and `map` panics if it does at
-- a pair in use. A `SecondaryMap` keeps one value for a slot: the laws say what it does with keys of
-- different slots, and with the only key of its slot.
pub mod Reference
pub mod Secondary
pub mod Inserting
use relrc.Prelude.{
  ◌≡◌, ◌≢◌, ◌↔◌, Bool, true, Option, none, some, List, [], ◌∷◌, All, if◌then◌else◌, ℕ, suc, length,
}
use mathlib.Core.Option
use mathlib.Core.List.{Memᴰ}

pub record SlotMaps : Type 1 where
  pub Key : Type 0
  pub key_eq : Key → Key → Bool
  pub key_eq_iff : (i j : Key) → (key_eq i j ≡ true) ↔ (i ≡ j)
  pub SlotMap : Type 0 → Type 0
  pub with_key : (V : Type 0) → SlotMap V
  pub insert : (V : Type 0) → SlotMap V → V → Key × SlotMap V
  pub remove : (V : Type 0) → SlotMap V → Key → Option V × SlotMap V
  pub get : (V : Type 0) → SlotMap V → Key → Option V
  pub iter : (V : Type 0) → SlotMap V → List (Key × V)
  pub len : (V : Type 0) → SlotMap V → ℕ
  pub slot : Key → ℕ
  pub map : (V W : Type 0) → SlotMap V → (Key → V → Option W) → Option (SlotMap W)
  pub retain : (V : Type 0) → SlotMap V → (Key → V → Bool) → SlotMap V
  pub get-with_key : (V : Type 0) (i : Key) → get V (with_key V) i ≡ none
  pub insert-fresh : (V : Type 0) (m : SlotMap V) (v : V) → get V m (insert V m v).0 ≡ none
  pub get-insert :
      (V : Type 0) (m : SlotMap V) (v : V) (i : Key)
      → get V (insert V m v).1 i ≡ (if key_eq (insert V m v).0 i then some v else get V m i)
  pub remove-get : (V : Type 0) (m : SlotMap V) (i : Key) → (remove V m i).0 ≡ get V m i
  pub get-remove :
      (V : Type 0) (m : SlotMap V) (i j : Key)
      → get V (remove V m i).1 j ≡ (if key_eq i j then none else get V m j)
  pub get-iter :
      (V : Type 0) (m : SlotMap V) (i : Key) (v : V) → Memᴰ (i, v) (iter V m) → get V m i ≡ some v
  pub iter-get :
      (V : Type 0) (m : SlotMap V) (i : Key) (v : V) → get V m i ≡ some v → Memᴰ (i, v) (iter V m)
  pub len-iter : (V : Type 0) (m : SlotMap V) → len V m ≡ length (iter V m)
  pub len-remove :
      (V : Type 0) (m : SlotMap V) (i : Key) (v : V)
      → get V m i ≡ some v
      → len V m ≡ suc (len V (remove V m i).1)
  pub map-some :
      (V W : Type 0) (m : SlotMap V) (f : Key → V → Option W)
      → ((i : Key) (v : V) → get V m i ≡ some v → (u : W) × (f i v ≡ some u))
      → (n : SlotMap W) × (map V W m f ≡ some n)
  pub get-map :
      (V W : Type 0) (m : SlotMap V) (f : Key → V → Option W) (n : SlotMap W)
      → map V W m f ≡ some n
      → (i : Key) → get W n i ≡ Option.bind (get V m i) (f i)
  pub map-none :
      (V W : Type 0) (m : SlotMap V) (f : Key → V → Option W) (i : Key) (v : V)
      → get V m i ≡ some v
      → f i v ≡ none
      → map V W m f ≡ none
  pub get-retain :
      (V : Type 0) (m : SlotMap V) (f : Key → V → Bool) (i : Key)
      → get V (retain V m f) i ≡ Option.bind (get V m i) (λ v. if f i v then some v else none)
  pub slot-eq :
      (V : Type 0) (m : SlotMap V) (i j : Key) (v u : V)
      → get V m i ≡ some v
      → get V m j ≡ some u
      → slot i ≡ slot j
      → i ≡ j

-- No key comes twice.
abbrev pub Once : {K V : Type 0} → List (K × V) → Type 0
Once [] = Unit {0}
Once ((k, v) ∷ es) = All (λ e. k ≢ e.0) es × Once es

pub record SecondaryMaps (S : SlotMaps) : Type 1 where
  pub SecondaryMap : Type 0 → Type 0
  pub new : (V : Type 0) → SecondaryMap V
  pub insert : (V : Type 0) → SecondaryMap V → S.Key → V → SecondaryMap V
  pub get : (V : Type 0) → SecondaryMap V → S.Key → Option V
  pub keys : (V : Type 0) → SecondaryMap V → List S.Key
  pub iter : (V : Type 0) → SecondaryMap V → List (S.Key × V)
  pub retain : (V : Type 0) → SecondaryMap V → (S.Key → V → Bool) → SecondaryMap V
  pub get-new : (V : Type 0) (i : S.Key) → get V (new V) i ≡ none
  pub get-insert_self :
      (V : Type 0) (m : SecondaryMap V) (i : S.Key) (v : V)
      → ((j : S.Key) (u : V) → get V m j ≡ some u → S.slot j ≡ S.slot i → j ≡ i)
      → get V (insert V m i v) i ≡ some v
  pub get-insert_other :
      (V : Type 0) (m : SecondaryMap V) (i j : S.Key) (v : V)
      → S.slot i ≢ S.slot j
      → get V (insert V m i v) j ≡ get V m j
  pub get-insert_same :
      (V : Type 0) (m : SecondaryMap V) (i j : S.Key) (v : V)
      → ((k : S.Key) (u : V) → get V m k ≡ some u → S.slot k ≡ S.slot i → k ≡ i)
      → S.slot i ≡ S.slot j
      → i ≢ j
      → get V (insert V m i v) j ≡ none
  pub keys-get :
      (V : Type 0) (m : SecondaryMap V) (i : S.Key)
      → Memᴰ i (keys V m)
      → (v : V) × (get V m i ≡ some v)
  pub get-keys :
      (V : Type 0) (m : SecondaryMap V) (i : S.Key) (v : V) → get V m i ≡ some v → Memᴰ i (keys V m)
  pub get-iter :
      (V : Type 0) (m : SecondaryMap V) (i : S.Key) (v : V)
      → Memᴰ (i, v) (iter V m)
      → get V m i ≡ some v
  pub iter-get :
      (V : Type 0) (m : SecondaryMap V) (i : S.Key) (v : V)
      → get V m i ≡ some v
      → Memᴰ (i, v) (iter V m)
  pub iter-Once : (V : Type 0) (m : SecondaryMap V) → Once (iter V m)
  pub get-retain :
      (V : Type 0) (m : SecondaryMap V) (f : S.Key → V → Bool) (i : S.Key)
      → get V (retain V m f) i ≡ Option.bind (get V m i) (λ v. if f i v then some v else none)
