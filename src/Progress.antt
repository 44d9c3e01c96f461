-- ===== src/Progress.antt =====
-- internal/progress/progress.go, with the reporters noop.go, console.go and factorial.go.
pub mod Memory
pub mod Factorial
use tobey.Common.{ℕ, String, Option, none, some}

pub data Status : Type 0 where
  state_queued_for_crawling state_crawling state_crawled : Status
  state_succeeded state_errored state_cancelled : Status

pub record Update : Type 0 where
  pub run_id : String
  pub url : String
  pub stage : String
  pub status : Status
  pub created : ℕ

-- An implementation of the interface `Reporter` over its state: the stage that its `With` writes,
-- and `Call` with the error that it returns.
pub record Reporter (S : Type 0) : Type 0 where
  pub stage : String
  pub call : Update → S → S × Option String

pub record Progress : Type 0 where
  pub run_id : String
  pub url : String
  pub stage : String

module _ {S : Type 0} (r : Reporter S) where
  unfoldable pub with_url : String → String → Progress
  with_url run_id url = record { run_id = run_id; url = url; stage = r.stage }

  -- (*Progress).Update at the time `now`.
  unfoldable pub update : Progress → ℕ → Status → S → S × Option String
  update p now status s =
      r.call
        (record { run_id = p.run_id; url = p.url; stage = p.stage; status = status; created = now })
        s

unfoldable pub noop_reporter : {S : Type 0} → Reporter S
noop_reporter = record { stage = ""; call = λ pu s. (s, none) }

-- It prints the update, of which nothing is kept.
unfoldable pub console_reporter : {S : Type 0} → Reporter S
console_reporter = record { stage = "initial"; call = λ pu s. (s, none) }

pub record FactorialProgressUpdatePayload : Type 0 where
  pub stage : String
  pub status : String
  pub run : String
  pub url : String

unfoldable pub factorial_progress_status : Status → String
factorial_progress_status state_queued_for_crawling = "queued_for_crawling"
factorial_progress_status state_crawling = "crawling"
factorial_progress_status state_crawled = "crawled"
factorial_progress_status state_succeeded = "succeeded"
factorial_progress_status state_errored = "errored"
factorial_progress_status state_cancelled = "cancelled"

-- The payload that `(*FactorialReporter).Call` sends.
unfoldable pub factorial_payload : Update → FactorialProgressUpdatePayload
unfolding factorial_progress_status
factorial_payload pu = record {
  stage = pu.stage;
  status = factorial_progress_status pu.status;
  run = pu.run_id;
  url = pu.url;
}
