-- ===== src/Ctrlq/Controlled.antt =====
-- internal/ctrlq/controlled.go. A time is a count of nanoseconds, of which `pausedUntil` keeps the
-- whole seconds; a duration is not negative.
use tobey.Common.{
  ℕ, String, ◌+◌, ◌/◌, ◌||◌, Bool, false, Option, none, some, ltb, if◌then◌else◌, ◌==◌, nat_eq,
}
use tobey.Chan.{Chan}
use tobey.Ctrlq.Job.{VisitMessage}
use tobey.Ctrlq.Limiter.{MemoryLimiter}

-- Channels carry pointers: `none` is nil.
pub record ControlledQueue (L : Type 0) : Type 0 where
  pub id : ℕ
  pub name : String
  pub queue : Chan (Option VisitMessage)
  pub limiter : MemoryLimiter L
  pub paused_until : ℕ
  pub is_adaptive : Bool

abbrev pub second : ℕ
second = 1_000_000_000

-- (time.Time).Unix
abbrev pub unix : ℕ → ℕ
unix t = t / second

module _ {L : Type 0} where
  -- Whether the queue is paused, and the second at which the pause ends.
  unfoldable pub is_paused : ControlledQueue L → ℕ → Bool × Option ℕ
  is_paused cq now =
      if cq.paused_until == 0
      then (false, none)
      else (ltb (unix now) cq.paused_until, some cq.paused_until)

  -- The queue, and the second that `Pause` returns.
  unfoldable pub pause : ControlledQueue L → ℕ → ℕ → ControlledQueue L × ℕ
  pause cq now d =
      let v = unix (now + d) in
      let o = cq.paused_until in
      if o == 0 || ltb o v then (record cq { paused_until = v }, v) else (cq, o)

  unfoldable pub unpause : ControlledQueue L → ControlledQueue L
  unpause cq = record cq { paused_until = 0 }
