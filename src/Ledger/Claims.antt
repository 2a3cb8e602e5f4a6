-- ===== src/Ledger/Claims.antt =====
-- What the invariant is for: the positions' claims on a stream after a history of calls.
use cw_streamswap.Base.{
  nat_key, pair_key, ℕ, ◌*◌, ◌/◌, ◌≤◌, ◌<◌, ◌≡◌, none, some, List, [], ◌∷◌, refl, arith, ◌==◌,
  if◌then◌else◌,
}
use cw_streamswap.Base.Division.{div-add-le, div-le_of_le-mul, mul_mono}
use cw_streamswap.Dict.{Dict, may_load}
use cw_streamswap.Dict.Sums.{total}
use cw_streamswap.Cosmwasm.{Cosmwasm}
use cw_streamswap.Cosmwasm.Documented.{Documented}
use cw_streamswap.State.{Stream, Position, Storage}
use cw_streamswap.Contract.Position.Accounting.{entitlement}
use cw_streamswap.Contract.Admin.{Build, InstantiateMsg, instantiate}
use cw_streamswap.Entry.{Call, storage_after, step}
use cw_streamswap.Ledger.{shares_in, IsBacked}
use cw_streamswap.Ledger.Calls.{other_fields, step-IsBacked}

-- The in tokens that a position of the stream `id` can claim of it.
abbrev pub claim_in : ℕ → Stream → ℕ × ℕ → Position → ℕ
claim_in id s (stream_id, addr) p =
    if stream_id == id then entitlement s.shares s.in_supply p else 0

total_claims :
    (id : ℕ) (s : Stream) (positions : Dict (ℕ × ℕ) Position)
    → total (claim_in id s) positions ≤ s.in_supply * total (shares_in id) positions / s.shares
unfolding total
total_claims id s [] = omega arith
total_claims id s ((key, p) ∷ rest) = ground (
  arith,
  total_claims id s rest,
  div-add-le (s.in_supply * p.shares) (s.in_supply * total (shares_in id) rest) s.shares,
)

-- All positions of a stream together can claim no more in tokens than the stream has left, however
-- the shares are spread over them.
pub claims_covered :
    (store : Storage) (id : ℕ) {s : Stream}
    → IsBacked store
    → may_load store.streams id ≡ some s
    → 0 < s.shares
    → total (claim_in id s) store.positions ≤ s.in_supply
claims_covered store id {s} v l pos = grind (
  arith,
  total_claims id s store.positions,
  v.backed id,
  mul_mono (total (shares_in id) store.positions) s.shares s.in_supply,
  div-le_of_le-mul s.in_supply (s.in_supply * total (shares_in id) store.positions) s.shares,
)

-- A history of calls, each with its block's time.
unfoldable pub run : Cosmwasm → List (ℕ × Call) → Storage → Storage
run c [] store = store
run c ((now, call) ∷ calls) store = run c calls (step c now call store)

pub run-IsBacked :
    (c : Cosmwasm)
    → Documented c
    → (calls : List (ℕ × Call)) (store : Storage) → IsBacked store
    → IsBacked (run c calls store)
unfolding run
run-IsBacked c d [] store v = v
run-IsBacked c d ((now, call) ∷ calls) store v =
    run-IsBacked c d calls (step c now call store) (step-IsBacked c d now call store v)

abbrev pub empty_storage : Storage
empty_storage = record {
  config = none;
  streams = [];
  stream_id_counter = none;
  positions = [];
  thresholds = [];
  contract_info = none;
}

empty-IsBacked : IsBacked empty_storage
unfolding total may_load
empty-IsBacked = record { backed = λ id. omega arith; in_step = tt; fresh = λ id h. refl }

pub initial :
    (c : Cosmwasm) (build : Build) (msg : InstantiateMsg)
    → IsBacked (storage_after empty_storage (instantiate c build msg empty_storage))
unfolding instantiate
initial c build msg =
    other_fields empty_storage _ (ground arith) (ground arith) (ground arith) empty-IsBacked

-- After an instantiation and any history of calls, the claims on each stream are covered.
pub run_claims_covered :
    (c : Cosmwasm)
    → Documented c
    → (build : Build) (msg : InstantiateMsg) (calls : List (ℕ × Call)) (id : ℕ) {s : Stream}
    → let store =
        run c calls (storage_after empty_storage (instantiate c build msg empty_storage)) in
      may_load store.streams id ≡ some s
      → 0 < s.shares
      → total (claim_in id s) store.positions ≤ s.in_supply
run_claims_covered c d build msg calls id l pos =
    claims_covered _ id (run-IsBacked c d calls _ (initial c build msg)) l pos
