-- ===== src/Dict.antt =====
-- The contract's maps (cw-storage-plus `Map`): association lists from keys to values, each key at
-- most once, with `may_load`, `save` and `remove`; `load` fails on a missing key.
pub mod Laws
pub mod Sums
use cw_streamswap.Base.{Option, none, some, List, [], ◌∷◌, Bool, true, false, if◌then◌else◌, Key}
use cw_streamswap.Error.{ContractError, Result, or_fail}

abbrev pub Dict {ℓ κ} : Type ℓ → Type κ → Type (ℓ ⊔ κ)
Dict K V = List (K × V)

module _ {K : Type 0} {V : Type 0} ⦃e : Key K⦄ where
  unfoldable pub may_load : Dict K V → K → Option V
  may_load [] k = none
  may_load ((j, v) ∷ d) k = if e.beq j k then some v else may_load d k

  unfoldable pub save : Dict K V → K → V → Dict K V
  save [] k v = (k, v) ∷ []
  save ((j, w) ∷ d) k v = if e.beq j k then (k, v) ∷ d else (j, w) ∷ save d k v

  unfoldable pub remove : Dict K V → K → Dict K V
  remove [] k = []
  remove ((j, w) ∷ d) k = if e.beq j k then d else (j, w) ∷ remove d k

  abbrev pub load : Dict K V → K → Result V
  load d k = or_fail (may_load d k) ContractError.std
