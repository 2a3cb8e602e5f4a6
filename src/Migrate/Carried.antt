-- ===== src/Migrate/Carried.antt =====
-- What the migration of the streams (src/migrate_v0_2_1.rs) carries over.
use cw_streamswap.Base.{nat_key, ℕ, ◌^◌, ◌<◌, ◌≡◌, refl, Option, none, some, [], ◌∷◌, arith}
use cw_streamswap.Base.Division.{mul-div_self}
use cw_streamswap.Error.{ok, Returns}
use cw_streamswap.Cosmwasm.{u128_limit, u256_limit, fractional, Cosmwasm}
use cw_streamswap.Cosmwasm.Documented.{Documented, Documented-eq}
use cw_streamswap.Dict.{Dict, may_load, save}
use cw_streamswap.Dict.Sums.{All}
use cw_streamswap.Dict.Laws.{may_load-save}
use cw_streamswap.State.{Stream}
use cw_streamswap.Migrate.{StreamV020, migrate_stream, migrate_streams}

-- The stream of the new version with the same values.
abbrev pub carried : StreamV020 → Stream
carried s = record {
  name = s.name;
  treasury = s.treasury;
  url = s.url;
  dist_index = s.dist_index;
  last_updated = s.last_updated;
  out_denom = s.out_denom;
  out_supply = s.out_supply;
  out_remaining = s.out_remaining;
  in_denom = s.in_denom;
  in_supply = s.in_supply;
  spent_in = s.spent_in;
  shares = s.shares;
  start_time = s.start_time;
  end_time = s.end_time;
  current_streamed_price = s.current_streamed_price;
  status = s.status;
  pause_date = s.pause_date;
  stream_creation_denom = s.stream_creation_denom;
  stream_creation_fee = s.stream_creation_fee;
  stream_exit_fee_percent = s.stream_exit_fee_percent;
}

-- The decimals of an old stream are of 128 bits.
abbrev pub IsOld : ℕ → StreamV020 → Type 0
IsOld id s = (s.current_streamed_price < u128_limit) × (s.stream_exit_fee_percent < u128_limit)

migrate_stream-eq :
    (c : Cosmwasm)
    → Documented c
    → (id : ℕ) (s : StreamV020) → IsOld id s
    → migrate_stream c s ≡ ok (carried s)
unfolding migrate_stream u128_limit u256_limit fractional
migrate_stream-eq c d = rw (Documented-eq c d) (λ id s h. ground (
  arith,
  mul-div_self s.current_streamed_price (10 ^ 18),
  mul-div_self s.stream_exit_fee_percent (10 ^ 18),
))

-- What the old storage has under an id, else what was there.
abbrev pub carried_or : Option Stream → Option StreamV020 → Option Stream
carried_or before none = before
carried_or before (some s) = some (carried s)

-- An association list with each key once.
abbrev pub IsDistinct : Dict ℕ StreamV020 → Type 0
IsDistinct [] = Unit
IsDistinct ((id, s) ∷ rest) = (may_load rest id ≡ none) × IsDistinct rest

-- The migration of old streams, with decimals of 128 bits and each id once, succeeds, and leaves
-- under each id the old stream with the same values, if there is one, and else what was there.
pub migrate_streams-Returns :
    (c : Cosmwasm)
    → Documented c
    → (old : Dict ℕ StreamV020) (streams : Dict ℕ Stream) (id : ℕ) → All IsOld old
    → IsDistinct old
    → Returns
        (λ new. may_load new id ≡ carried_or (may_load streams id) (may_load old id))
        (migrate_streams c old streams)
unfolding migrate_streams may_load
migrate_streams-Returns c d [] streams id h u = refl
migrate_streams-Returns c d ((j, s) ∷ rest) streams id h u = simp (migrate_stream-eq c d j s h.0) (
    ground (
      arith,
      may_load-save streams j id (carried s),
      migrate_streams-Returns c d rest (save streams j (carried s)) id h.1 u.1,
    ))
