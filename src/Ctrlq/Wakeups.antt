-- ===== src/Ctrlq/Wakeups.antt =====
-- When the promoter learns of a new message, and how long it holds a host's queue back.
use tobey.Common.{ℕ, String, ◌+◌, ◌≤◌, ◌<◌, ◌≡◌, true, false, some, arith, length, nat_eq}
use tobey.Url.{UrlLib}
use tobey.Ctrlq.Job.{Carrier}
use tobey.Ctrlq.Limiter.{RateLib, holds_reservation}
use tobey.Ctrlq.Controlled.{ControlledQueue, unix}
use tobey.Ctrlq.Memory.{
  MemoryVisitWorkQueue, lazy_host_queue, enqueue, publish, trigger_recalc, woken,
}
use tobey.Ctrlq.Promoter.Scanning.{IsReady, check_queue_of_IsReady}
use tobey.Ctrlq.Promoter.{check_queue, ready, paused}

module _ (urls : UrlLib) (x : RateLib) where
  open x use {Bucket}

  -- A publication that returns normally wakes the promoter if it stands in its `select`, and
  -- otherwise leaves no trace with it.
  pub publish-promoter :
      (now : ℕ) (carrier : Carrier) (run url : String) (wq wq' : MemoryVisitWorkQueue Bucket)
      → publish urls x now carrier run url wq ≡ some wq'
      → wq'.promoter ≡ woken wq.promoter
  unfolding publish lazy_host_queue enqueue trigger_recalc
  publish-promoter now carrier run url wq wq' e = ground arith

  -- The premises: the queue has a message, no pause and no reservation, and the limiter grants one
  -- with a delay that ends within the current second.
  pub record IsShortDelay (now : ℕ) (hq : ControlledQueue Bucket) : Type 0 where
    pub busy : 0 < length hq.queue.buffer
    pub awake : hq.paused_until ≤ unix now
    pub free : holds_reservation hq.limiter ≡ false
    pub granted : (x.reserve_n hq.limiter.bucket now).granted ≡ true
    pub late : 0 < (x.reserve_n hq.limiter.bucket now).delay
    pub soon : unix (now + (x.reserve_n hq.limiter.bucket now).delay) ≡ unix now

  short_delay-IsReady :
      (now : ℕ) (hq : ControlledQueue Bucket)
      → IsShortDelay now hq
      → IsReady x now (check_queue x now hq).0
  unfolding check_queue
  short_delay-IsReady now hq h = record {
    busy = ground arith;
    awake = ground arith;
    reserved = ground arith;
  }

  short_delay-paused :
      (now : ℕ) (hq : ControlledQueue Bucket)
      → IsShortDelay now hq
      → (check_queue x now hq).1 ≡ paused (unix now)
  unfolding check_queue
  short_delay-paused now hq h = ground arith

  -- If the limiter grants a reservation with a delay that ends within the current second, the delay
  -- holds nothing back: the round reports a pause, and the next round at the same time finds the
  -- queue ready.
  pub short_delay_ignored :
      (now : ℕ) (hq : ControlledQueue Bucket)
      → IsShortDelay now hq
      → ((check_queue x now hq).1 ≡ paused (unix now))
        × ((check_queue x now (check_queue x now hq).0).1 ≡ ready)
  short_delay_ignored now hq h = (
    short_delay-paused now hq h,
    rw (check_queue_of_IsReady x now (check_queue x now hq).0 (short_delay-IsReady now hq h)),
  )
