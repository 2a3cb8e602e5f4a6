-- ===== src/State.antt =====
-- src/state.rs: the configuration, streams and positions, and the contract's storage.
pub mod Shares
pub mod Worth
use cw_streamswap.Base.{
  ℕ, ◌+◌, ◌≡◌, Bool, true, false, ◌||◌, Option, none, some, List, ltb, ◌==◌, if◌then◌else◌,
}
use cw_streamswap.Error.{Result, ok, err, panic, ◌>>=◌, unwrap}
use cw_streamswap.Cosmwasm.{u64_limit, Cosmwasm}
use cw_streamswap.Dict.{Dict}

-- Text whose characters matter: its code points.
abbrev pub Text : Type 0
Text = List ℕ

pub record Config : Type 0 where
  pub min_stream_seconds : ℕ
  pub min_seconds_until_start_time : ℕ
  pub accepted_in_denom : ℕ
  pub stream_creation_denom : ℕ
  pub stream_creation_fee : ℕ
  pub exit_fee_percent : ℕ
  pub fee_collector : ℕ
  pub protocol_admin : ℕ

pub data Status : Type 0 where
  waiting active finalized paused cancelled : Status

pub record Stream : Type 0 where
  pub name : Text
  pub treasury : ℕ
  pub url : Option Text
  pub dist_index : ℕ
  pub last_updated : ℕ
  pub out_denom : ℕ
  pub out_supply : ℕ
  pub out_remaining : ℕ
  pub in_denom : ℕ
  pub in_supply : ℕ
  pub spent_in : ℕ
  pub shares : ℕ
  pub start_time : ℕ
  pub end_time : ℕ
  pub current_streamed_price : ℕ
  pub status : Status
  pub pause_date : Option ℕ
  pub stream_creation_denom : ℕ
  pub stream_creation_fee : ℕ
  pub stream_exit_fee_percent : ℕ

pub record Position : Type 0 where
  pub owner : ℕ
  pub in_balance : ℕ
  pub shares : ℕ
  pub index : ℕ
  pub last_updated : ℕ
  pub purchased : ℕ
  pub pending_purchase : ℕ
  pub spent : ℕ
  pub operator : Option ℕ

-- `Stream::new`
unfoldable pub new_stream : Text → ℕ → Option Text → ℕ → ℕ → ℕ → ℕ → ℕ → ℕ → ℕ → ℕ → ℕ → Stream
new_stream name treasury url out_denom out_supply in_denom start_time end_time last_updated
      stream_creation_denom stream_creation_fee stream_exit_fee_percent =
    record {
      name = name;
      treasury = treasury;
      url = url;
      dist_index = 0;
      last_updated = last_updated;
      out_denom = out_denom;
      out_supply = out_supply;
      out_remaining = out_supply;
      in_denom = in_denom;
      in_supply = 0;
      spent_in = 0;
      shares = 0;
      start_time = start_time;
      end_time = end_time;
      current_streamed_price = 0;
      status = waiting;
      pause_date = none;
      stream_creation_denom = stream_creation_denom;
      stream_creation_fee = stream_creation_fee;
      stream_exit_fee_percent = stream_exit_fee_percent;
    }

abbrev pub unwrap_or : Option ℕ → ℕ → ℕ
unwrap_or (some a) b = a
unwrap_or none b = b

-- `Position::new`
unfoldable pub new_position : ℕ → ℕ → ℕ → Option ℕ → ℕ → Option ℕ → Position
new_position owner in_balance shares index last_updated operator = record {
  owner = owner;
  in_balance = in_balance;
  shares = shares;
  index = unwrap_or index 0;
  last_updated = last_updated;
  purchased = 0;
  pending_purchase = 0;
  spent = 0;
  operator = operator;
}

-- `==` on `Status`.
abbrev pub status_eq : Status → Status → Bool
status_eq waiting waiting = true
status_eq active active = true
status_eq finalized finalized = true
status_eq paused paused = true
status_eq cancelled cancelled = true
status_eq _ _ = false

unfoldable pub is_paused : Stream → Bool
is_paused s = status_eq s.status paused

unfoldable pub is_cancelled : Stream → Bool
is_cancelled s = status_eq s.status cancelled

unfoldable pub is_killswitch_active : Stream → Bool
is_killswitch_active s = status_eq s.status cancelled || status_eq s.status paused

-- The shares minted (rounded down) or burnt (rounded up) for an amount of in tokens.
unfoldable pub compute_shares_amount : Cosmwasm → Stream → ℕ → Bool → Result ℕ
compute_shares_amount c s amount_in round_up =
    if s.shares == 0 || amount_in == 0 then ok amount_in else (do
      shares ← unwrap (c.num.mul s.shares amount_in)
      if round_up
          then (do
            sum ← unwrap (c.num.add shares s.in_supply)
            above ← unwrap (c.num.sub sum 1)
            unwrap (c.num.div above s.in_supply))
          else unwrap (c.num.div shares s.in_supply))

-- The contract's storage: an `Item` is an `Option`, and a `Map` a `Dict`. The version is the one
-- that cw2 keeps: the contract's name, and its version as a number that grows with it.
pub record Storage : Type 0 where
  pub config : Option Config
  pub streams : Dict ℕ Stream
  pub stream_id_counter : Option ℕ
  pub positions : Dict (ℕ × ℕ) Position
  pub thresholds : Dict ℕ ℕ
  pub contract_info : Option (ℕ × ℕ)

-- The next stream's id, and the storage with the counter raised. The u64 addition traps.
unfoldable pub next_stream_id : Storage → Result (ℕ × Storage)
next_stream_id store =
    let id = unwrap_or store.stream_id_counter 0 + 1 in
    if ltb id u64_limit then ok (id, record store { stream_id_counter = some id }) else err panic
