-- ===== src/Ledger.antt =====
-- The invariant of the whole storage (src/state.rs): how streams and positions hang together.
pub mod Writes
pub mod Running
pub mod Payments
pub mod Ending
pub mod Killswitch
pub mod Calls
pub mod Claims
use cw_streamswap.Base.{
  nat_key, pair_key, ℕ, ◌≤◌, ◌<◌, ◌≡◌, Option, none, some, ◌==◌, if◌then◌else◌,
}
use cw_streamswap.Dict.{Dict, may_load}
use cw_streamswap.Dict.Sums.{total, All}
use cw_streamswap.State.{Stream, Position, Storage, unwrap_or}

-- The shares of a position, if it is one of the stream `id`.
abbrev pub shares_in : ℕ → ℕ × ℕ → Position → ℕ
shares_in id (stream_id, addr) p = if stream_id == id then p.shares else 0

abbrev pub shares_of : Option Stream → ℕ
shares_of none = 0
shares_of (some s) = s.shares

abbrev pub index_of : Option Stream → ℕ
index_of none = 0
index_of (some s) = s.dist_index

abbrev pub Streams : Type 0
Streams = Dict ℕ Stream

-- A position stands under its owner, and is not ahead of its stream.
abbrev pub InStep : Streams → ℕ × ℕ → Position → Type 0
InStep streams (stream_id, addr) p =
    (p.owner ≡ addr) × (p.index ≤ index_of (may_load streams stream_id))

-- Every stream has at least the shares that its positions hold, every position is in step, and no
-- stream has an id that is still to be given out.
pub record IsBacked (store : Storage) : Type 0 where
  pub backed :
      (id : ℕ) → total (shares_in id) store.positions ≤ shares_of (may_load store.streams id)
  pub in_step : All (InStep store.streams) store.positions
  pub fresh : (id : ℕ) → unwrap_or store.stream_id_counter 0 < id → may_load store.streams id ≡ none
