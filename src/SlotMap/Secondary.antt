-- ===== src/SlotMap/Secondary.antt =====
-- The secondary map's laws can be met: it has a place for each key of `slots`.
use mathlib.Core.List.{Memᴰ}
use mathlib.Core.List.Memᴰ
use relrc.Prelude.{
  ℕ, zero, suc, ◌<◌, All, ◌≡◌, ◌≢◌, refl, inl, inr, none, some, List, [], ◌∷◌, arith, ◌==◌, ==_iff,
  if◌then◌else◌, map,
}
use relrc.SlotMap.{SecondaryMaps, Once}
use relrc.SlotMap.Reference.{
  slots, Slots, get, iter_from, get-iter, iter-get, retain_slots, get-retain_slots,
}

abbrev pub put : (V : Type 0) → Slots V → ℕ → V → Slots V
put V [] zero v = some v ∷ []
put V [] (suc i) v = none ∷ put V [] i v
put V (x ∷ m) zero v = some v ∷ m
put V (x ∷ m) (suc i) v = x ∷ put V m i v

pub get-put :
    (V : Type 0) (m : Slots V) (i j : ℕ) (v : V)
    → get V (put V m i v) j ≡ (if i == j then some v else get V m j)
get-put V [] zero zero v = refl
get-put V [] zero (suc j) v = ground arith
get-put V [] (suc i) zero v = ground arith
get-put V [] (suc i) (suc j) v = ground (arith, get-put V [] i j v)
get-put V (x ∷ m) zero zero v = refl
get-put V (x ∷ m) zero (suc j) v = ground arith
get-put V (x ∷ m) (suc i) zero v = ground arith
get-put V (x ∷ m) (suc i) (suc j) v = ground (arith, get-put V m i j v)

pub get-put_self : (V : Type 0) (m : Slots V) (i : ℕ) (v : V) → get V (put V m i v) i ≡ some v
get-put_self V m i v = ground (arith, get-put V m i i v)

pub get-put_other :
    (V : Type 0) (m : Slots V) (i j : ℕ) (v : V) → i ≢ j → get V (put V m i v) j ≡ get V m j
get-put_other V m i j v apart = ground (arith, get-put V m i j v, ==_iff i j)

abbrev pub keys : (V : Type 0) → Slots V → List ℕ
keys V m = map (λ e. e.0) (iter_from 0 m)

mem-firsts :
    {V : Type 0} (es : List (ℕ × V)) (i : ℕ) → Memᴰ i (map (λ e. e.0) es) → (v : V) × Memᴰ (i, v) es
mem-firsts [] i found = absurd (Memᴰ.not-nil found)
mem-firsts ((k, v) ∷ es) i found = elim (Memᴰ.cases_cons found) [
  | inl here ↦ (v, Memᴰ.head (ground arith))
  | inr later ↦ let (u, there) = mem-firsts es i later in (u, Memᴰ.tail there)
]

firsts-mem :
    {V : Type 0} (es : List (ℕ × V)) (i : ℕ) (v : V) → Memᴰ (i, v) es → Memᴰ i (map (λ e. e.0) es)
firsts-mem [] i v found = absurd (Memᴰ.not-nil found)
firsts-mem ((k, u) ∷ es) i v found = elim (Memᴰ.cases_cons found) [
  | inl here ↦ Memᴰ.head (ground arith)
  | inr later ↦ Memᴰ.tail (firsts-mem es i v later)
]

pub keys-get :
    (V : Type 0) (m : Slots V) (i : ℕ) → Memᴰ i (keys V m) → (v : V) × (get V m i ≡ some v)
keys-get V m i found =
    let (v, there) = mem-firsts (iter_from 0 m) i found in (v, get-iter V m i v there)

pub get-keys : (V : Type 0) (m : Slots V) (i : ℕ) (v : V) → get V m i ≡ some v → Memᴰ i (keys V m)
get-keys V m i v at = firsts-mem (iter_from 0 m) i v (iter-get V m i v at)

iter_from-above :
    {V : Type 0} (k : ℕ) (m : Slots V) (i : ℕ) → i < k → All (λ e. i ≢ e.0) (iter_from k m)
iter_from-above k [] i lt = tt
iter_from-above k (none ∷ m) i lt = iter_from-above (suc k) m i (omega arith)
iter_from-above k (some v ∷ m) i lt =
    (λ same. absurd (omega arith), iter_from-above (suc k) m i (omega arith))

pub iter_from-Once : {V : Type 0} (k : ℕ) (m : Slots V) → Once (iter_from k m)
iter_from-Once k [] = tt
iter_from-Once k (none ∷ m) = iter_from-Once (suc k) m
iter_from-Once k (some v ∷ m) =
    (iter_from-above (suc k) m k (omega arith), iter_from-Once (suc k) m)

abbrev pub secondary : SecondaryMaps slots
secondary = record {
  SecondaryMap = Slots;
  new = λ V. [];
  insert = put;
  get = get;
  keys = keys;
  iter = λ V. iter_from 0;
  retain = λ V. retain_slots;
  get-new = λ V i. refl;
  get-insert_self = λ V m i v _. get-put_self V m i v;
  get-insert_other = get-put_other;
  get-insert_same = λ V m i j v _ same apart. absurd (apart same);
  keys-get = keys-get;
  get-keys = get-keys;
  get-iter = get-iter;
  iter-get = iter-get;
  iter-Once = λ V. iter_from-Once 0;
  get-retain = get-retain_slots;
}
