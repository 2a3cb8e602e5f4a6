-- ===== src/Killswitch/Pause/Delay.antt =====
-- The release of a stream after a pause (src/killswitch.rs).
use cw_streamswap.Base.{ℕ, ◌+◌, ◌-◌, ◌≡◌, some, arith}
use cw_streamswap.Error.{Ensures}
use cw_streamswap.Cosmwasm.{Cosmwasm}
use cw_streamswap.Cosmwasm.Documented.{Documented, Documented-eq}
use cw_streamswap.State.{Stream, active}
use cw_streamswap.Contract.Stream.Ratio.{ratio, ratio_shift}
use cw_streamswap.Killswitch.Pause.{postponed}

-- After a resume at `now` the stream is active, and each later moment releases the ratio that the
-- moment as long after the pause would have released, had there been no pause.
pub resume_keeps_ratio :
    (c : Cosmwasm)
    → Documented c
    → (now paused_at later : ℕ) (s : Stream) → s.pause_date ≡ some paused_at
    → Ensures
        (λ t.
          (t.status ≡ active)
          × (ratio t.end_time t.last_updated (now + later)
              ≡ ratio s.end_time s.last_updated (paused_at + later)))
        (postponed c now s)
unfolding postponed
resume_keeps_ratio c d now paused_at later s h =
    rw (Documented-eq c d)
      (ground (arith, ratio_shift (now - paused_at) s.end_time s.last_updated (paused_at + later)))
