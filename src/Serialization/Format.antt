-- ===== src/Serialization/Format.antt =====
-- The serialised forms of src/serialization.rs. A `BTreeSet` is the list of its elements, whose order
-- is not modelled.
use relrc.Prelude.{Option, some, List}
use mathlib.Core.Option
use relrc.SlotMap.{SlotMaps}

-- `SerializedInnerData`
pub record SerializedInnerData (K N E : Type 0) : Type 0 where
  pub value : N
  pub incoming : List (K × E)

-- `SerializedRegistry`
pub record SerializedRegistry (S : SlotMaps) (N E : Type 0) : Type 0 where
  pub nodes : S.SlotMap (SerializedInnerData S.Key N E)

-- `SerializedHistoryGraph`
pub record SerializedHistoryGraph (S : SlotMaps) (N E : Type 0) : Type 0 where
  pub nodes : List S.Key
  pub registry : SerializedRegistry S N E

-- `SerializedRelRc`
pub record SerializedRelRc (S : SlotMaps) (N E : Type 0) : Type 0 where
  pub id : S.Key
  pub ancestors_graph : SerializedHistoryGraph S N E

-- `SerializedInnerData::map_value`
unfoldable pub map_value :
    {K N M E : Type 0} → (N → M) → SerializedInnerData K N E → SerializedInnerData K M E
map_value f d = record { value = f d.value; incoming = d.incoming }

-- `SerializedRegistry::map_nodes`, with a function that neither panics nor keeps state.
unfoldable pub map_nodes :
    {S : SlotMaps} {N M E : Type 0}
    → (N → M)
    → SerializedRegistry S N E
    → Option (SerializedRegistry S M E)
unfolding map_value
map_nodes {S} {N} {M} {E} f r =
    Option.map (λ nodes. record { nodes = nodes })
      (S.map (SerializedInnerData S.Key N E) (SerializedInnerData S.Key M E) r.nodes
        (λ _ v. some (map_value f v)))
