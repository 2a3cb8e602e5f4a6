-- ===== src/Contract/Subscribe/Joining.antt =====
-- A subscription to a running stream (`join` of `execute_subscribe`, src/contract.rs), step by step.
use cw_streamswap.Handler.{check_access}
use cw_streamswap.Base.{ℕ, ◌<◌, ◌≡◌, ◌==◌, not, Option, none, some, false, refl, arith}
use cw_streamswap.Error.{ContractError, fail_if, ok, Ensures, by_result, of_Ensures}
use cw_streamswap.Cosmwasm.{MessageInfo, Cosmwasm}
use cw_streamswap.Cosmwasm.Documented.{Documented}
use cw_streamswap.State.{Stream, Position, new_position, compute_shares_amount}
use cw_streamswap.State.Shares.{Minted, compute_shares_amount-Minted}
use cw_streamswap.Contract.Stream.{update_stream}
use cw_streamswap.Contract.Stream.Release.{Updates, update_stream-Ensures}
use cw_streamswap.Contract.Position.{sync_position}
use cw_streamswap.Contract.Position.Accounting.{Syncs, update_position-Ensures}
use cw_streamswap.Contract.Subscribe.{top_up, join}
use cw_streamswap.Contract.Subscribe.Payments.{TopsUp, top_up-Ensures}

-- The stream is the one that the update at `now` returns.
abbrev pub IsUpdated : Cosmwasm → ℕ → Stream → Stream → Type 0
IsUpdated c now s t =
    (diff : ℕ) × (sold : ℕ) × (update_stream c now s ≡ ok (diff, sold, t))
    × Updates now s (diff, sold, t)

-- The position before, brought up to date with the stream, gets the payment and the shares; a new
-- one starts with them, at the stream's index and the time `now`.
abbrev pub HasJoined :
    (now sender : ℕ) (operator : Option ℕ) (amount minted : ℕ)
    → Stream
    → Option Position
    → Position
    → Type 0
HasJoined now sender operator amount minted t none q =
    q ≡ new_position sender amount minted (some t.dist_index) now operator
HasJoined now sender operator amount minted t (some p) q =
    (whole : ℕ) × (spent : ℕ) × (r : Position) × Syncs t.dist_index t.shares t.last_updated
      t.in_supply p (whole, spent, r)
    × TopsUp amount minted r q

abbrev pub Subscribes :
    Cosmwasm
    → ℕ
    → MessageInfo
    → Option ℕ
    → ℕ
    → Stream
    → Option Position
    → ℕ × Stream × Position
    → Type 0
Subscribes c now info operator amount s o (minted, t, q) =
    IsUpdated c now s t
    × Minted t amount minted
    × HasJoined now info.sender operator amount minted t o q

-- A subscription to a running stream with a positive payment, where it succeeds, first updates the
-- stream to the block's time; mints the most shares that the payment is worth in the updated
-- stream; and adds payment and shares to the position, which is first brought up to date with that
-- stream, or starts with them at its index.
pub join-Subscribes :
    (c : Cosmwasm)
    → Documented c
    → (now : ℕ) (info : MessageInfo) (operator : Option ℕ) (addr amount : ℕ) (s : Stream)
      (o : Option Position)
    → 0 < amount
    → Ensures (Subscribes c now info operator amount s o) (join c now info operator addr amount s o)
unfolding join
join-Subscribes c d now info operator addr amount s none pos =
    by_result (update_stream c now s) (λ e h. simp h (ground arith))
      λ (diff, sold, t) h.
        by_result (compute_shares_amount c t amount false) (λ e i. simp (h, i) (ground arith))
          λ minted i.
            let u : Updates now s (diff, sold, t) =
              of_Ensures (Updates now s) _ (update_stream-Ensures c d now s) h in
            let m : Minted t amount minted =
              of_Ensures (Minted t amount) _ (compute_shares_amount-Minted c d t amount pos) i in
            by_result (fail_if (not (addr == info.sender)) ContractError.unauthorized)
              (λ e g. simp (g, h, i) tt) λ z g. simp (g, h, i) ((diff, sold, refl, u), m, refl)
join-Subscribes c d now info operator addr amount s (some p) pos =
    by_result (update_stream c now s) (λ e h. simp h (ground arith))
      λ (diff, sold, t) h.
        by_result (compute_shares_amount c t amount false) (λ e i. simp (h, i) (ground arith))
          λ minted i.
            by_result (sync_position c t p) (λ e k. simp (h, i, k) (ground arith))
              λ (whole, spent, q) k.
                by_result (top_up c amount minted q) (λ e x. simp (h, i, k, x) (ground arith))
                  λ r x.
                    let u : Updates now s (diff, sold, t) =
                      of_Ensures (Updates now s) _ (update_stream-Ensures c d now s) h in
                    let m : Minted t amount minted =
                      of_Ensures (Minted t amount) _ (compute_shares_amount-Minted c d t amount pos)
                        i in
                    let y : Syncs t.dist_index t.shares t.last_updated t.in_supply p
                        (whole, spent, q) =
                      of_Ensures (Syncs t.dist_index t.shares t.last_updated t.in_supply p) _
                        (update_position-Ensures c d t.dist_index t.shares t.last_updated
                          t.in_supply p)
                        k in
                    let z : TopsUp amount minted q r =
                      of_Ensures (TopsUp amount minted q) _ (top_up-Ensures c d amount minted q)
                        x in
                    let j : HasJoined now info.sender operator amount minted t (some p) r =
                      (whole, spent, q, y, z) in
                    by_result (check_access info p.owner p.operator)
                      (λ e g. simp (g, h, i, k, x) tt)
                      λ v g. simp (g, h, i, k, x) ((diff, sold, refl, u), m, j)
