-- ===== src/Ctrlq/Promoter/Rounds.antt =====
-- Which candidate a round of the promoter picks.
use native.Mathlib.Nat.{mod-lt}
use tobey.Common.{ℕ, suc, ◌-◌, ◌%◌, ◌^◌, ◌≤◌, ◌<◌, ◌≡◌, refl, Bool, none, some, arith, length}
use tobey.Ctrlq.Limiter.{RateLib}
use tobey.Ctrlq.Memory.{MemoryVisitWorkQueue}
use tobey.Ctrlq.Promoter.{pick, Candidates, settle}

-- The pick is a position of the list of candidates, for every counter but the wrapped one.
pub pick-lt : (m count : ℕ) → 0 < count → (i : ℕ) × (pick (suc m) count ≡ some i) × (i < count)
unfolding pick
pick-lt m count h = (m % count, refl, mod-lt m h)

module _ (x : RateLib) where
  open x use {Bucket}

  -- When the counter has run through all of uint32 and there are several candidates, the round
  -- panics, whatever they are.
  pub settle_wraps :
      (now : ℕ) (done : Bool) (found : Candidates Bucket) (wq : MemoryVisitWorkQueue Bucket)
      → wq.next ≡ 2 ^ 32 - 1
      → 2 ≤ length found.immediate
      → settle x now done found wq ≡ none
  unfolding settle pick
  settle_wraps now done found wq e h = rw (e, settle) (ground arith)
