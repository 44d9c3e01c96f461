-- ===== src/Visitor.antt =====
-- visitor.go, over a world `W` of which the work queue, the progress and the runs are parts. `none`
-- is a panic.
pub mod Failed
pub mod Ends
pub mod Keeping
pub mod Working
use tobey.Common.{
  ℕ, String, ◌||◌, List, [], ◌∷◌, Bool, true, false, Option, none, some, ◌>>=◌, leb, if◌then◌else◌,
  ◌==◌, nat_eq, string_eq,
}
use tobey.Failure.{Error, is_deadline_exceeded}
use tobey.Headers.{Header, get}
use tobey.Progress.{
  Status, state_crawling, state_crawled, state_succeeded, state_errored, state_cancelled,
}
use tobey.Run.{Run}
use tobey.Ctrlq.Job.{VisitJob, validate}

-- What a visit brings back; `url` is the URL of the last request.
pub record Response : Type 0 where
  pub status_code : ℕ
  pub headers : Header
  pub url : String
  pub body : String
  pub took : ℕ

pub data Code : Type 0 where
  code_unknown code_unhandled code_permanent code_temporary code_ignore : Code

abbrev pub max_job_retries : ℕ
max_job_retries = 3

-- The error with which a failed visit was handled.
pub data Fault : Type 0 where
  maximum_retries_reached unhandled_failed_visit : Fault
  failed_to_republish : Error → Fault

abbrev pub Handled : Type 0
Handled = Code × Option Fault

-- The effects of the closures that `process` passes, and `time.ParseDuration(v + "s")`.
pub record Effects (W : Type 0) : Type 0 where
  pub pause : String → ℕ → W → Option W
  pub republish : VisitJob → W → Option (W × Option Error)
  pub parse_seconds : String → ℕ

abbrev is_redirect : ℕ → Bool
is_redirect c = c == 301 || c == 302 || c == 307 || c == 308

module _ {W : Type 0} (fx : Effects W) where
  abbrev republished : W × Option Error → W × Handled
  republished (w, none) = (w, (code_temporary, none))
  republished (w, some e) = (w, (code_unhandled, some (failed_to_republish e)))

  unfoldable pub attempt_republish : VisitJob → W → Option (W × Handled)
  attempt_republish job w =
      if leb max_job_retries job.retries
      then some (w, (code_permanent, some maximum_retries_reached))
      else (do r ← fx.republish job w; some (republished r))

  -- The `Retry-After` header of a 429 or 503. A time that it names is not in the past here, where the code
  -- then waits for a duration below 0.
  unfoldable pub heed_retry_after : Response → W → Option W
  unfolding get
  heed_retry_after res w =
      let v = get "Retry-After" res.headers in
      if v == "" then some w else fx.pause res.url (fx.parse_seconds v) w

  handle_response : VisitJob → Response → W → Option (W × Handled)
  unfolding attempt_republish heed_retry_after
  handle_response job res w =
      if is_redirect res.status_code || res.status_code == 404
      then some (w, (code_ignore, none))
      else if res.status_code == 500 || res.status_code == 504
      then attempt_republish job w
      else if res.status_code == 429 || res.status_code == 503
      then (do w1 ← heed_retry_after res w; attempt_republish job w1)
      else some (w, (code_unknown, none))

  unfoldable pub handle_failed_visit : VisitJob → Option Response → Error → W → Option (W × Handled)
  unfolding handle_response attempt_republish
  handle_failed_visit job (some res) err w = handle_response job res w
  handle_failed_visit job none err w =
      if is_deadline_exceeded err
      then attempt_republish job w
      else some (w, (code_unhandled, some unhandled_failed_visit))

-- What `process` uses besides. `visit` is (*Collector).Visit of the run's collector: it enqueues the
-- links of a page and reports the result. `report` is (*Progress).Update for the job's URL.
pub record Parts (W : Type 0) : Type 0 where
  pub effects : Effects W
  pub open effects use *
  pub get_run : String → W → W × Option Run
  pub report : VisitJob → Status → W → W
  pub visit : Run → String → W → Option (W × Option Response × Option Error)
  pub take_rate_limit_headers : String → Header → W → Option W
  pub take_sample : String → ℕ → Option Error → ℕ → W → Option W

-- The `switch` over the code: the status that is reported, if any, and the result of `process`.
abbrev pub conclusion : Handled → Option Status × Option Fault
conclusion (code_ignore, herr) = (some state_cancelled, none)
conclusion (code_temporary, herr) = (none, none)
conclusion (code_permanent, herr) = (some state_errored, none)
conclusion (code_unknown, herr) = (some state_errored, none)
conclusion (code_unhandled, herr) = (some state_errored, herr)

module _ {W : Type 0} (x : Parts W) where
  unfoldable pub sample : VisitJob → Option Response → Option Error → W → Option W
  sample job none err w = x.take_sample job.url 0 err 0 w
  sample job (some res) err w = do
    w1 ← x.take_rate_limit_headers job.url res.headers w
    x.take_sample job.url res.status_code err res.took w1

  abbrev pub report_maybe : VisitJob → Option Status → W → W
  report_maybe job none w = w
  report_maybe job (some status) w = x.report job status w

  -- Behind the second report; a visit with neither a response nor an error is read for its time.
  conclude : VisitJob → Option Response → Option Error → W → Option (W × Option Fault)
  unfolding handle_failed_visit
  conclude job none none w = none
  conclude job (some res) none w = some (x.report job state_succeeded w, none)
  conclude job res (some err) w = do
    (w1, handled) ← handle_failed_visit x.effects job res err w
    some (report_maybe job (conclusion handled).0 w1, (conclusion handled).1)

  visit_and_conclude : VisitJob → Run → W → Option (W × Option Fault)
  unfolding conclude sample
  visit_and_conclude job run w = do
    (w1, res, err) ← x.visit run job.url (x.report job state_crawling w)
    w2 ← sample job res err w1
    conclude job res err (x.report job state_crawled w2)

  -- A run that is not found is a nil pointer, which `GetCollector` follows.
  unfoldable pub process : VisitJob → W → Option (W × Option Fault)
  unfolding visit_and_conclude
  process job w =
      let (w1, found) = x.get_run job.run w in
      elim found [ none ↦ none | some run ↦ visit_and_conclude job run w1 ]

-- What the `select` of a worker receives. After `Consume` has closed its channels it may as well
-- receive a nil error or a nil job.
pub data Event : Type 0 where
  done : Event
  failed : Option Error → Event
  nil_job : Event
  job : VisitJob → Event

-- How a worker goes on: it waits for more, returns, or panics.
pub data Worker (W : Type 0) : Type 0 where
  waits : W → Worker W
  returns : Option Error → W → Worker W
  exits : Fault → W → Worker W
  panics : Worker W

module _ {W : Type 0} (x : Parts W) where
  work : VisitJob → W → Worker W
  unfolding process validate
  work j w = elim (validate j) [
    | some invalid ↦ returns none w
    | none ↦ elim (process x j w) [
      | none ↦ panics
      | some (w1, none) ↦ waits w1
      | some (w1, some fault) ↦ exits fault w1
    ]
  ]

  abbrev turn : Event → W → Worker W
  turn done w = returns none w
  turn (failed e) w = returns e w
  turn nil_job w = panics
  turn (job j) w = work j w

  -- (*Visitor).run, over the events that come in.
  unfoldable pub run : List Event → W → Worker W
  unfolding work
  run [] w = waits w
  run (e ∷ es) w = elim (turn e w) [ waits w1 ↦ run es w1 | other ↦ other ]
