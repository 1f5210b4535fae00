-- ===== src/History/Outgoing/Members.antt =====
-- What is in the lists that src/history.rs and src/node.rs make.
use mathlib.Core.Option
use mathlib.Core.List.{Memᴰ}
use mathlib.Core.List.Memᴰ
use relrc.Prelude.{
  ℕ, zero, suc, ◌<◌, ◌≡◌, ◌↔◌, refl, sym, ap, ◌∙◌, subst, inl, inr, Option, some, List, [], ◌∷◌,
  arith, ◌==◌, ==_iff, ◌&&◌, get_elem?, Option-cases, Bool-cases,
}
use relrc.Object.{Ptr, Edge, InnerData, InnerEdgeData, Heap, deref, strong_count, sources}
use relrc.Links.Raising.{edge_count}
use relrc.History.{filter_some}

pub filter_some_iff :
    {A B : Type 0} (f : A → Option B) (xs : List A) (y : B)
    → Memᴰ y (filter_some f xs) ↔ ((x : A) × Memᴰ x xs × (f x ≡ some y))
filter_some_iff f [] y =
    (λ there. absurd (Memᴰ.not-nil there), λ (x, there, e). absurd (Memᴰ.not-nil there))
filter_some_iff f (x ∷ xs) y =
    let rest = filter_some_iff f xs y in
    elim (Option-cases (f x)) [
      | inl gone ↦ (
        λ there.
            let is : filter_some f (x ∷ xs) ≡ filter_some f xs = rw (filter_some, gone) refl in
            let (z, listed, e) = rest.0 (subst (λ ys. Memᴰ y ys) is there) in
            (z, Memᴰ.tail listed, e),
        λ (z, there, e).
            rw (filter_some, gone)
              (elim (Memᴰ.cases_cons there) [
                | inl here ↦ absurd (ground (arith, ap f here))
                | inr later ↦ rest.1 (z, later, e)
              ]),
      )
      | inr (u, at) ↦ (
        λ there.
            let is : filter_some f (x ∷ xs) ≡ u ∷ filter_some f xs = rw (filter_some, at) refl in
            elim (Memᴰ.cases_cons (subst (λ ys. Memᴰ y ys) is there)) [
              | inl here ↦ (x, Memᴰ.head refl, at ∙ ap (λ v. some v) (sym here))
              | inr later ↦ let (z, listed, e) = rest.0 later in (z, Memᴰ.tail listed, e)
            ],
        λ (z, there, e).
            rw (filter_some, at)
              (elim (Memᴰ.cases_cons there) [
                | inl here ↦ let same : y ≡ u = ground (arith, ap f here) in Memᴰ.head same
                | inr later ↦ Memᴰ.tail (rest.1 (z, later, e))
              ]),
      )
    ]

pub edge_count_iff :
    (i : ℕ) (t : Ptr) (es : List Edge)
    → (0 < edge_count i t es) ↔ Memᴰ (record { index = i; target = t }) es
edge_count_iff i t [] = (λ some_there. absurd (omega arith), λ there. absurd (Memᴰ.not-nil there))
edge_count_iff i t (e ∷ es) =
    let rest = edge_count_iff i t es in
    elim (Bool-cases ((i == e.index) && (t == e.target))) [
      | inl same ↦
          let at : i ≡ e.index = ground (arith, ==_iff i e.index) in
          let to : t ≡ e.target = ground (arith, ==_iff t e.target) in
          (
            λ some_there. Memᴰ.head (
                ap (λ n. record { index = n; target = t }) at
                ∙ ap (λ n. record { index = e.index; target = n }) to),
            λ there. rw same (omega arith),
          )
      | inr other ↦ (
        λ some_there. Memᴰ.tail (rest.0 (ground arith)),
        λ there. elim (Memᴰ.cases_cons there) [
          | inl here ↦
              let at : i ≡ e.index = ap (λ (f : Edge). f.index) here in
              let to : t ≡ e.target = ap (λ (f : Edge). f.target) here in
              absurd (ground (arith, ==_iff i e.index, ==_iff t e.target))
          | inr later ↦ let more = rest.1 later in omega (arith, more)
        ],
      )
    ]

pub get_elem?-sources :
    {E : Type 0} (es : List (InnerEdgeData E)) (i : ℕ)
    → get_elem? (sources es) i ≡ Option.map (λ e. e.source) (get_elem? es i)
get_elem?-sources [] i = refl
get_elem?-sources (e ∷ es) zero = refl
get_elem?-sources (e ∷ es) (suc i) = get_elem?-sources es i

pub deref_alive :
    {N E : Type 0} (h : Heap N E) (p : Ptr)
    → 0 < strong_count h p
    → (inner : InnerData N E) × (deref h p ≡ some inner)
deref_alive h p live = elim (Option-cases (get_elem? h p)) [
  | inl e ↦ absurd (ground arith)
  | inr (b, e) ↦ (b.inner, ground arith)
]
