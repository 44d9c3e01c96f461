-- ===== src/Ctrlq/Job.antt =====
-- internal/ctrlq/job.go.
use tobey.Common.{ℕ, String, List, Option, none, some, if◌then◌else◌, ◌==◌, string_eq}

-- propagation.MapCarrier: what the propagator injects, and extracts again, of a context.
abbrev pub Carrier : Type 0
Carrier = List (String × String)

-- `created` counts nanoseconds; `id` and `retries` are uint32.
pub record VisitMessage : Type 0 where
  pub id : ℕ
  pub run : String
  pub url : String
  pub created : ℕ
  pub retries : ℕ
  pub carrier : Carrier

-- Of its context a job carries the tracing information only.
pub record VisitJob : Type 0 where
  pub message : VisitMessage
  pub open message use *
  pub context : Carrier

pub data Invalid : Type 0 where
  without_run without_url : Invalid

unfoldable pub validate : VisitJob → Option Invalid
validate j =
    if j.run == "" then some without_run else if j.url == "" then some without_url else none
