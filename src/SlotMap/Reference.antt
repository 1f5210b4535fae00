-- ===== src/SlotMap/Reference.antt =====
-- The slot map's laws can be met: slots are filled from left to right and never used again.
use mathlib.Core.List.{Memᴰ}
use mathlib.Core.List.Memᴰ
use relrc.Prelude.{
  ℕ, zero, suc, ◌+◌, ◌≡◌, refl, ap, sym, inl, inr, Option, none, some, List, [], ◌∷◌, ◌++◌, arith,
  ◌==◌, ==_iff, if◌then◌else◌, get_elem?, modify, get_elem?-modify, get_elem?-concat,
  get_elem?_beyond, length, Option-cases, Bool, subst,
}
use mathlib.Core.Option
use relrc.SlotMap.{SlotMaps}

abbrev pub Slots : Type 0 → Type 0
Slots V = List (Option V)

abbrev pub join : {V : Type 0} → Option (Option V) → Option V
join none = none
join (some v) = v

abbrev pub get : (V : Type 0) → Slots V → ℕ → Option V
get V m i = join (get_elem? m i)

abbrev pub insert : (V : Type 0) → Slots V → V → ℕ × Slots V
insert V m v = (length m, m ++ some v ∷ [])

abbrev pub remove : (V : Type 0) → Slots V → ℕ → Option V × Slots V
remove V m i = (get V m i, modify m i (λ _. none))

abbrev pub iter_from : {V : Type 0} → ℕ → Slots V → List (ℕ × V)
iter_from k [] = []
iter_from k (none ∷ m) = iter_from (suc k) m
iter_from k (some v ∷ m) = (k, v) ∷ iter_from (suc k) m

pub get-insert :
    (V : Type 0) (m : Slots V) (v : V) (i : ℕ)
    → get V (insert V m v).1 i ≡ (if length m == i then some v else get V m i)
get-insert V m v i = ground (arith, get_elem?-concat m (some v) i)

pub get-remove :
    (V : Type 0) (m : Slots V) (i j : ℕ)
    → get V (remove V m i).1 j ≡ (if i == j then none else get V m j)
get-remove V m i j = elim (Option-cases (get_elem? m j)) [
  | inl e ↦ ground (arith, get_elem?-modify m i j (λ _. none))
  | inr (v, e) ↦ ground (arith, get_elem?-modify m i j (λ _. none))
]

pub insert-fresh : (V : Type 0) (m : Slots V) (v : V) → get V m (length m) ≡ none
insert-fresh V m v = ground (arith, get_elem?_beyond m (length m))

iter_from-get :
    {V : Type 0} (k j : ℕ) (m : Slots V) {v : V}
    → get V m j ≡ some v
    → Memᴰ (k + j, v) (iter_from k m)
iter_from-get k j [] e = cc
iter_from-get k zero (none ∷ m) e = cc
iter_from-get k zero (some w ∷ m) {v} e = Memᴰ.head (ground arith)
iter_from-get k (suc j) (none ∷ m) e =
    let shift : k + suc j ≡ suc k + j = omega arith in rw shift (iter_from-get (suc k) j m e)
iter_from-get k (suc j) (some w ∷ m) e =
    let shift : k + suc j ≡ suc k + j = omega arith in
    Memᴰ.tail (rw shift (iter_from-get (suc k) j m e))

get-iter_from :
    {V : Type 0} (k i : ℕ) (m : Slots V) {v : V}
    → Memᴰ (i, v) (iter_from k m)
    → (j : ℕ) × (i ≡ k + j) × (get V m j ≡ some v)
get-iter_from k i [] found = absurd (Memᴰ.not-nil found)
get-iter_from k i (none ∷ m) found =
    let (j, e, got) = get-iter_from (suc k) i m found in (suc j, omega arith, got)
get-iter_from k i (some w ∷ m) found = elim (Memᴰ.cases_cons found) [
  | inl e ↦ (zero, ground arith, ground arith)
  | inr later ↦ let (j, e, got) = get-iter_from (suc k) i m later in (suc j, omega arith, got)
]

pub get-iter :
    (V : Type 0) (m : Slots V) (i : ℕ) (v : V) → Memᴰ (i, v) (iter_from 0 m) → get V m i ≡ some v
get-iter V m i v found =
    let (j, e, got) = get-iter_from 0 i m found in let same : i ≡ j = omega arith in rw same got

pub iter-get :
    (V : Type 0) (m : Slots V) (i : ℕ) (v : V) → get V m i ≡ some v → Memᴰ (i, v) (iter_from 0 m)
iter-get V m i v e =
    let same : i ≡ 0 + i = omega arith in
    subst (λ j. Memᴰ (j, v) (iter_from 0 m)) (sym same) (iter_from-get 0 i m e)

-- A slot map's closure, from the second slot on.
abbrev pub tail_of : {A : Type 0} → (ℕ → A) → ℕ → A
tail_of f k = f (suc k)

abbrev pub map_slots : {V W : Type 0} → Slots V → (ℕ → V → Option W) → Option (Slots W)
map_slots [] f = some []
map_slots (none ∷ m) f = Option.map (λ n. none ∷ n) (map_slots m (tail_of f))
map_slots (some v ∷ m) f = elim (f 0 v) [
  | none ↦ none
  | some u ↦ Option.map (λ n. some u ∷ n) (map_slots m (tail_of f))
]

abbrev pub retain_slots : {V : Type 0} → Slots V → (ℕ → V → Bool) → Slots V
retain_slots [] f = []
retain_slots (none ∷ m) f = none ∷ retain_slots m (tail_of f)
retain_slots (some v ∷ m) f = (if f 0 v then some v else none) ∷ retain_slots m (tail_of f)

pub map_slots-some :
    (V W : Type 0) (m : Slots V) (f : ℕ → V → Option W)
    → ((j : ℕ) (v : V) → get V m j ≡ some v → (u : W) × (f j v ≡ some u))
    → (n : Slots W) × (map_slots m f ≡ some n)
map_slots-some V W [] f answers = ([], refl)
map_slots-some V W (none ∷ m) f answers =
    let (n, e) = map_slots-some V W m (tail_of f) (λ j. answers (suc j)) in (none ∷ n, rw e refl)
map_slots-some V W (some v ∷ m) f answers =
    let (n, e) = map_slots-some V W m (tail_of f) (λ j. answers (suc j)) in
    let (u, is) = answers zero v refl in (some u ∷ n, ground arith)

pub map_slots-none :
    (V W : Type 0) (m : Slots V) (f : ℕ → V → Option W) (j : ℕ) (v : V)
    → get V m j ≡ some v
    → f j v ≡ none
    → map_slots m f ≡ none
map_slots-none V W [] f j v at fails = cc
map_slots-none V W (none ∷ m) f zero v at fails = cc
map_slots-none V W (none ∷ m) f (suc j) v at fails =
    rw (map_slots-none V W m (tail_of f) j v at fails) refl
map_slots-none V W (some u ∷ m) f zero v at fails = ground arith
map_slots-none V W (some u ∷ m) f (suc j) v at fails =
    ground (arith, map_slots-none V W m (tail_of f) j v at fails)

pub get-map_slots :
    (V W : Type 0) (m : Slots V) (f : ℕ → V → Option W) (n : Slots W)
    → map_slots m f ≡ some n
    → (j : ℕ) → get W n j ≡ Option.bind (get V m j) (f j)
unfolding Option.bind
get-map_slots V W [] f n e j = ground arith
get-map_slots V W (none ∷ m) f n e zero = elim (Option-cases (map_slots m (tail_of f))) [
  | inl gone ↦ ground arith
  | inr (rest, is) ↦ ground arith
]
get-map_slots V W (none ∷ m) f n e (suc j) = elim (Option-cases (map_slots m (tail_of f))) [
  | inl gone ↦ absurd (ground arith)
  | inr (rest, is) ↦ ground (arith, get-map_slots V W m (tail_of f) rest is j)
]
get-map_slots V W (some v ∷ m) f n e zero = elim (Option-cases (map_slots m (tail_of f))) [
  | inl gone ↦ absurd (ground arith)
  | inr (rest, is) ↦ ground arith
]
get-map_slots V W (some v ∷ m) f n e (suc j) = elim (Option-cases (map_slots m (tail_of f))) [
  | inl gone ↦ absurd (ground arith)
  | inr (rest, is) ↦ ground (arith, get-map_slots V W m (tail_of f) rest is j)
]

pub get-retain_slots :
    (V : Type 0) (m : Slots V) (f : ℕ → V → Bool) (j : ℕ)
    → get V (retain_slots m f) j ≡ Option.bind (get V m j) (λ v. if f j v then some v else none)
unfolding Option.bind
get-retain_slots V [] f j = refl
get-retain_slots V (none ∷ m) f zero = refl
get-retain_slots V (none ∷ m) f (suc j) = get-retain_slots V m (tail_of f) j
get-retain_slots V (some v ∷ m) f zero = refl
get-retain_slots V (some v ∷ m) f (suc j) = get-retain_slots V m (tail_of f) j

length-iter_from :
    {V : Type 0} (k j : ℕ) (m : Slots V) → length (iter_from k m) ≡ length (iter_from j m)
length-iter_from k j [] = refl
length-iter_from k j (none ∷ m) = length-iter_from (suc k) (suc j) m
length-iter_from k j (some v ∷ m) = ap suc (length-iter_from (suc k) (suc j) m)

pub len-remove :
    (V : Type 0) (m : Slots V) (i : ℕ) (v : V)
    → get V m i ≡ some v
    → length (iter_from 0 m) ≡ suc (length (iter_from 0 (remove V m i).1))
len-remove V [] i v at = cc
len-remove V (none ∷ m) zero v at = cc
len-remove V (none ∷ m) (suc i) v at =
    omega
      (arith, len-remove V m i v at, length-iter_from 1 0 m, length-iter_from 1 0 (remove V m i).1)
len-remove V (some u ∷ m) zero v at = omega (arith)
len-remove V (some u ∷ m) (suc i) v at =
    omega
      (arith, len-remove V m i v at, length-iter_from 1 0 m, length-iter_from 1 0 (remove V m i).1)

abbrev pub slots : SlotMaps
slots = record {
  Key = ℕ;
  key_eq = ◌==◌;
  key_eq_iff = ==_iff;
  SlotMap = Slots;
  with_key = λ V. [];
  insert = insert;
  remove = remove;
  get = get;
  iter = λ V. iter_from 0;
  len = λ V m. length (iter_from 0 m);
  get-with_key = λ V i. refl;
  insert-fresh = insert-fresh;
  get-insert = get-insert;
  remove-get = λ V m i. refl;
  get-remove = get-remove;
  get-iter = get-iter;
  iter-get = iter-get;
  len-iter = λ V m. refl;
  slot = λ i. i;
  slot-eq = λ V m i j v u _ _ e. e;
  map = λ V W. map_slots;
  retain = λ V. retain_slots;
  len-remove = len-remove;
  map-some = map_slots-some;
  get-map = get-map_slots;
  map-none = map_slots-none;
  get-retain = get-retain_slots;
}
