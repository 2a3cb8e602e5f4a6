-- ===== src/Settlement.antt =====
-- What becomes of a stream once it is finalized (src/contract.rs), whatever is called afterwards.
pub mod Handlers
pub mod Endings
pub mod Calls
pub mod Outcome
pub mod Refunded
use cw_streamswap.Base.{
  nat_key, ℕ, ◌≤◌, ◌<◌, ◌≡◌, ◌⊎◌, Option, none, some, List, false, Bool-cases, inl, inr, ltb, ◌==◌,
  if◌then◌else◌, arith,
}
use cw_streamswap.Dict.{Dict, may_load, save}
use cw_streamswap.Dict.Laws.{may_load-save}
use cw_streamswap.Error.{Result, ok, err, Ensures, by_result}
use cw_streamswap.Cosmwasm.{Cosmwasm}
use cw_streamswap.Cosmwasm.Documented.{Documented}
use cw_streamswap.State.{Stream, Position, Storage, finalized, status_eq, unwrap_or}
use cw_streamswap.Handler.{Send, load_stream, save_stream}
use cw_streamswap.Contract.Stream.{update_stream}
use cw_streamswap.Contract.Stream.Release.{update_stream-Ensures, update_stream_over}
use cw_streamswap.Contract.Finish.{update_if_behind}

-- A stream that was finalized before the time `since`, its amounts brought up to its end.
abbrev pub IsOver : (since spent : ℕ) → Stream → Type 0
IsOver since spent s =
    (s.status ≡ finalized)
    × (s.end_time < since)
    × (s.end_time ≤ s.last_updated)
    × (s.spent_in ≡ spent)

abbrev pub IsOverAt : (since spent : ℕ) → Option Stream → Type 0
IsOverAt since spent none = ⊥
IsOverAt since spent (some s) = IsOver since spent s

-- The stream `id` is such a one, its threshold is as given, and its id is not given out again.
pub record Over (since id spent : ℕ) (threshold : Option ℕ) (store : Storage) : Type 0 where
  pub over : IsOverAt since spent (may_load store.streams id)
  pub bar : may_load store.thresholds id ≡ threshold
  pub taken : id ≤ unwrap_or store.stream_id_counter 0

-- What a handler may write over a stream at `now`: one that was not finalized, or not up to its
-- end, or the same in what counts.
abbrev pub Spares : ℕ → Stream → Stream → Type 0
Spares now s t =
    (t.status ≡ s.status)
      × (t.end_time ≡ s.end_time)
      × (t.spent_in ≡ s.spent_in)
      × (t.end_time ≤ t.last_updated)
    ⊎ (status_eq s.status finalized ≡ false)
    ⊎ (now ≤ s.end_time)
    ⊎ (s.last_updated < s.end_time)

abbrev pub Stays : (since id spent : ℕ) → Option ℕ → List Send × Storage → Type 0
Stays since id spent threshold (messages, store) = Over since id spent threshold store

spared :
    (since now spent : ℕ) (s t : Stream)
    → since ≤ now
    → IsOver since spent s
    → Spares now s t
    → IsOver since spent t
spared since now spent s t le o r = ground arith

-- Another stream may be written freely.
pub save_other-Over :
    {since id spent : ℕ} {threshold : Option ℕ} {store : Storage} (j : ℕ)
    → (j == id) ≡ false
    → Over since id spent threshold store
    → (t : Stream) (positions : Dict (ℕ × ℕ) Position)
    → Over since id spent threshold
        (record store { streams = save store.streams j t; positions = positions })
save_other-Over {since} {id} {spent} {threshold} {store} j other o t positions = record {
  over = ground (arith, o.over, may_load-save store.streams j id t);
  bar = o.bar;
  taken = o.taken;
}

-- Only the streams, the thresholds and the counter matter.
pub same-Over :
    {since id spent : ℕ} {threshold : Option ℕ} {a b : Storage}
    → b.streams ≡ a.streams
    → b.thresholds ≡ a.thresholds
    → b.stream_id_counter ≡ a.stream_id_counter
    → Over since id spent threshold a
    → Over since id spent threshold b
same-Over x y z o = record { over = rw x o.over; bar = rw y o.bar; taken = rw z o.taken }

pub save_stream-Over :
    {since now id spent : ℕ} {threshold : Option ℕ} {store : Storage} (j : ℕ) {s : Stream}
    (t : Stream)
    → since ≤ now
    → Over since id spent threshold store
    → may_load store.streams j ≡ some s
    → Spares now s t
    → Over since id spent threshold (save_stream store j t)
save_stream-Over {since} {now} {id} {spent} {threshold} {store} j {s} t le o l r = record {
  over = ground (arith, o.over, may_load-save store.streams j id t, spared since now spent s t le);
  bar = o.bar;
  taken = o.taken;
}

any_Ensures {ℓ} : {A : Type ℓ} {P : A → Type 0} (r : Result A) → ((a : A) → P a) → Ensures P r
any_Ensures (ok a) f = f a
any_Ensures (err e) f = tt

-- An update spares the stream.
pub update_stream-Spares :
    (c : Cosmwasm)
    → Documented c
    → (now : ℕ) (s : Stream) → Ensures (λ (diff, sold, t). Spares now s t) (update_stream c now s)
update_stream-Spares c d now s = elim (Bool-cases (ltb s.last_updated s.end_time)) [
  | inl behind ↦ any_Ensures (update_stream c now s) λ v. ground arith
  | inr done ↦ rw (update_stream_over c d now s (ground arith)) (ground arith)
]

pub update_if_behind-Spares :
    (c : Cosmwasm)
    → Documented c
    → (now : ℕ) (s : Stream) → Ensures (λ t. Spares now s t) (update_if_behind c now s)
unfolding update_if_behind
update_if_behind-Spares c d now s = ground (arith, update_stream-Spares c d now s)
