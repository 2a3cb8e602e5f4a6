-- ===== src/Threshold.antt =====
-- src/threshold.rs: the least amount that a stream must take in.
use cw_streamswap.Base.{
  nat_key, ℕ, Bool, true, false, Option, none, some, ltb, leb, ◌==◌, if◌then◌else◌,
}
use cw_streamswap.Error.{ThresholdError, Checked, pass, fail}
use cw_streamswap.Dict.{Dict, may_load, save}
use cw_streamswap.State.{Stream}

abbrev pub Thresholds : Type 0
Thresholds = Dict ℕ ℕ

unfoldable pub set_threshold_if_any : Option ℕ → ℕ → Thresholds → Checked Thresholds
set_threshold_if_any none stream_id store = pass store
set_threshold_if_any (some threshold) stream_id store =
    if threshold == 0
    then fail ThresholdError.threshold_zero
    else pass (save store stream_id threshold)

unfoldable pub error_if_not_reached : ℕ → Thresholds → Stream → Checked (Unit {0})
error_if_not_reached stream_id store stream = elim (may_load store stream_id) [
  | some threshold ↦
      if ltb stream.spent_in threshold then fail ThresholdError.threshold_not_reached else pass tt
  | none ↦ pass tt
]

unfoldable pub error_if_reached : ℕ → Thresholds → Stream → Checked (Unit {0})
error_if_reached stream_id store stream = elim (may_load store stream_id) [
  | some threshold ↦
      if leb threshold stream.spent_in then fail ThresholdError.threshold_reached else pass tt
  | none ↦ pass tt
]

unfoldable pub check_if_threshold_set : ℕ → Thresholds → Bool
check_if_threshold_set stream_id store = elim (may_load store stream_id) [
  | some _ ↦ true
  | none ↦ false
]

unfoldable pub get_threshold : ℕ → Thresholds → Option ℕ
get_threshold stream_id store = may_load store stream_id
