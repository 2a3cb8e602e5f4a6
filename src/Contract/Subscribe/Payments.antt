-- ===== src/Contract/Subscribe/Payments.antt =====
-- What a payment adds to the stream and to the position.
use cw_streamswap.Base.{ℕ, ◌+◌, ◌-◌, ◌≤◌, ◌≡◌, Option, none, some, false, arith}
use cw_streamswap.Error.{Ensures, by_result, of_Ensures}
use cw_streamswap.Cosmwasm.{MessageInfo, Cosmwasm}
use cw_streamswap.Cosmwasm.Documented.{Documented, Documented-eq}
use cw_streamswap.State.{Stream, Position, new_position, compute_shares_amount}
use cw_streamswap.Contract.Stream.{update_stream}
use cw_streamswap.Contract.Stream.Release.{Releases, Updates, update_stream-Ensures}
use cw_streamswap.Contract.Position.{sync_position}
use cw_streamswap.Contract.Position.Accounting.{Syncs, update_position-Ensures}
use cw_streamswap.Contract.Subscribe.{top_up, take_in, join, join_pending}

abbrev pub TakesIn : ℕ → ℕ → Stream → Stream → Type 0
TakesIn amount minted s t =
    (t.in_supply ≡ s.in_supply + amount)
    × (t.shares ≡ s.shares + minted)
    × (t.dist_index ≡ s.dist_index)
    × (t.spent_in ≡ s.spent_in)
    × (t.out_remaining ≡ s.out_remaining)
    × (t.status ≡ s.status)
    × (t.end_time ≡ s.end_time)
    × (t.last_updated ≡ s.last_updated)

pub take_in-Ensures :
    (c : Cosmwasm)
    → Documented c
    → (amount minted : ℕ) (s : Stream)
    → Ensures (TakesIn amount minted s) (take_in c amount minted s)
unfolding take_in
take_in-Ensures c d = rw (Documented-eq c d) (λ amount minted s. ground arith)

abbrev pub TopsUp : ℕ → ℕ → Position → Position → Type 0
TopsUp amount minted p q =
    (q.in_balance ≡ p.in_balance + amount)
    × (q.shares ≡ p.shares + minted)
    × (q.index ≡ p.index)
    × (q.owner ≡ p.owner)
    × (q.spent ≡ p.spent)
    × (q.purchased ≡ p.purchased)
    × (q.pending_purchase ≡ p.pending_purchase)
    × (q.operator ≡ p.operator)

pub top_up-Ensures :
    (c : Cosmwasm)
    → Documented c
    → (amount minted : ℕ) (p : Position)
    → Ensures (TopsUp amount minted p) (top_up c amount minted p)
unfolding top_up
top_up-Ensures c d = rw (Documented-eq c d) (λ amount minted p. ground arith)

-- A position's shares, what was paid into it, and its owner; of a new one, no shares, nothing, and
-- the address.
abbrev pub held : Option Position → ℕ
held none = 0
held (some p) = p.shares

abbrev pub paid : Option Position → ℕ
paid none = 0
paid (some p) = p.in_balance + p.spent

abbrev pub owner_or : Option Position → ℕ → ℕ
owner_or none addr = addr
owner_or (some p) addr = p.owner

-- The payment is added to what the position has paid in, and the shares minted to its shares.
abbrev pub Enters : Option Position → ℕ → ℕ → ℕ → ℕ → Position → Type 0
Enters o addr amount minted index q =
    (q.in_balance + q.spent ≡ paid o + amount)
    × (q.shares ≡ held o + minted)
    × (q.owner ≡ owner_or o addr)
    × (q.index ≤ index)

abbrev pub Joins : ℕ → ℕ → ℕ → Stream → Option Position → ℕ × Stream × Position → Type 0
Joins now addr amount s o (minted, t, q) =
    Enters o addr amount minted t.dist_index q × Releases s (s.out_remaining - t.out_remaining) t

-- What a subscription to a running stream that succeeds keeps: the stream's tokens and terms are
-- conserved, what the position has paid in grows by the payment and its shares by the minted ones,
-- under the owner that it had (a new one: under the address), with an index that is not ahead of
-- the stream's.
pub join-Ensures :
    (c : Cosmwasm)
    → Documented c
    → (now : ℕ) (info : MessageInfo) (operator : Option ℕ) (addr amount : ℕ) (s : Stream)
      (o : Option Position)
    → Ensures (Joins now addr amount s o) (join c now info operator addr amount s o)
unfolding join new_position
join-Ensures c d now info operator addr amount s none =
    by_result (update_stream c now s) (λ e h. simp h (ground arith))
      λ (diff, sold, t) h.
        let u : Updates now s (diff, sold, t) =
          of_Ensures (Updates now s) _ (update_stream-Ensures c d now s) h in
        simp h (ground arith)
join-Ensures c d now info operator addr amount s (some p) =
    by_result (update_stream c now s) (λ e h. simp h (ground arith))
      λ (diff, sold, t) h.
        by_result (compute_shares_amount c t amount false) (λ e i. simp (h, i) (ground arith))
          λ minted i.
            by_result (sync_position c t p) (λ e k. simp (h, i, k) (ground arith))
              λ (whole, spent, q) k.
                by_result (top_up c amount minted q) (λ e m. simp (h, i, k, m) (ground arith))
                  λ r m.
                    let u : Updates now s (diff, sold, t) =
                      of_Ensures (Updates now s) _ (update_stream-Ensures c d now s) h in
                    let y : Syncs t.dist_index t.shares t.last_updated t.in_supply p
                        (whole, spent, q) =
                      of_Ensures (Syncs t.dist_index t.shares t.last_updated t.in_supply p) _
                        (update_position-Ensures c d t.dist_index t.shares t.last_updated
                          t.in_supply p)
                        k in
                    let w : TopsUp amount minted q r =
                      of_Ensures (TopsUp amount minted q) _ (top_up-Ensures c d amount minted q)
                        m in
                    simp (h, i, k, m) (ground arith)

abbrev pub index_or : Option Position → ℕ
index_or none = 0
index_or (some p) = p.index

-- A subscription before the start, where it succeeds, of a position that is not ahead of the stream:
-- what the position has paid in grows by the payment and its shares by the minted ones, under the
-- owner that it had (a new one: under the address).
pub join_pending-Ensures :
    (c : Cosmwasm)
    → Documented c
    → (now : ℕ) (info : MessageInfo) (operator : Option ℕ) (addr amount minted : ℕ) (s : Stream)
      (o : Option Position)
    → index_or o ≤ s.dist_index
    → Ensures
        (Enters o addr amount minted s.dist_index)
        (join_pending c now info operator addr amount minted s o)
unfolding join_pending new_position
join_pending-Ensures c d now info operator addr amount minted s none h = ground arith
join_pending-Ensures c d now info operator addr amount minted s (some p) h =
    ground (arith, top_up-Ensures c d amount minted p)
