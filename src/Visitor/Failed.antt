-- ===== src/Visitor/Failed.antt =====
-- How failed visits end.
use tobey.Common.{
  ℕ, String, ◌≡◌, ◌≤◌, ◌<◌, Bool, true, Option, none, some, arith, inl, inr, Bool-cases,
  >>=-eq-some, ◌||◌, ◌==◌, nat_eq, string_eq,
}
use tobey.Failure.{Error, is_deadline_exceeded}
use tobey.Headers.{get}
use tobey.Ctrlq.Job.{VisitJob}
use tobey.Visitor.{
  Response, code_temporary, max_job_retries, Fault, Effects, attempt_republish, heed_retry_after,
  handle_response, is_redirect, handle_failed_visit,
}

-- The failures after which a visit is tried again.
abbrev pub retryable : Option Response → Error → Bool
retryable none err = is_deadline_exceeded err
retryable (some res) err =
    res.status_code == 500
    || res.status_code == 504
    || res.status_code == 429
    || res.status_code == 503

abbrev pub without_republish : {W : Type 0} → Effects W → Effects W
without_republish fx = record fx { republish = λ job w. none }

module _ {W : Type 0} (fx : Effects W) where
  -- A job that has used up its retries is never published again: the handler answers the same with
  -- a `republish` that panics.
  pub exhausted_not_republished :
      (job : VisitJob) (res : Option Response) (err : Error) (w : W)
      → max_job_retries ≤ job.retries
      → handle_failed_visit fx job res err w
        ≡ handle_failed_visit (without_republish fx) job res err w
  unfolding handle_failed_visit
  exhausted_not_republished job none err w h = ground arith
  exhausted_not_republished job (some res) err w h = ground arith

  abbrev Republished : VisitJob → W → Option Fault → W → Type 0
  Republished job w' fault w0 =
      (job.retries < max_job_retries) × (fault ≡ none) × (fx.republish job w0 ≡ some (w', none))

  attempt_republish-temporary :
      (job : VisitJob) (w w' : W) (fault : Option Fault)
      → attempt_republish fx job w ≡ some (w', (code_temporary, fault))
      → Republished job w' fault w
  unfolding attempt_republish
  attempt_republish-temporary job w w' fault e = (ground arith, ground arith, ground arith)

  handle_response-temporary :
      (job : VisitJob) (res : Response) (w w' : W) (fault : Option Fault)
      → handle_response fx job res w ≡ some (w', (code_temporary, fault))
      → (w0 : W) × Republished job w' fault w0
  unfolding handle_response
  handle_response-temporary job res w w' fault e =
      elim (Bool-cases (is_redirect res.status_code || res.status_code == 404)) [
        | inl ignored ↦ cc (rw (ignored, handle_response) at e)
        | inr other ↦ elim (Bool-cases (res.status_code == 500 || res.status_code == 504)) [
          | inl failing ↦ (
            w,
            attempt_republish-temporary job w w' fault (rw (other, failing, handle_response) at e),
          )
          | inr answered ↦ elim (Bool-cases (res.status_code == 429 || res.status_code == 503)) [
            | inl busy ↦
                let (w1, heeded, tried) =
                  >>=-eq-some (heed_retry_after fx res w) (attempt_republish fx job)
                    (rw (other, answered, busy, handle_response) at e) in
                (w1, attempt_republish-temporary job w1 w' fault tried)
            | inr unknown ↦ cc (rw (other, answered, unknown, handle_response) at e)
          ]
        ]
      ]

  -- A failure is handled as temporary only if it is one to retry, the job has retries left, and its
  -- republication succeeded; that is the last thing the handler does.
  pub temporary_sound :
      (job : VisitJob) (res : Option Response) (err : Error) (w w' : W) (fault : Option Fault)
      → handle_failed_visit fx job res err w ≡ some (w', (code_temporary, fault))
      → (retryable res err ≡ true) × ((w0 : W) × Republished job w' fault w0)
  unfolding handle_failed_visit
  temporary_sound job none err w w' fault e =
      (ground arith, (w, attempt_republish-temporary job w w' fault (ground arith)))
  temporary_sound job (some res) err w w' fault e =
      (ground arith, handle_response-temporary job res w w' fault e)

  module _ (job : VisitJob) (paused : String → ℕ → W → W) (queued : W → W)
      (pause_ok : (url : String) (d : ℕ) (w : W) → fx.pause url d w ≡ some (paused url d w))
      (republish_ok : (w : W) → fx.republish job w ≡ some (queued w, none))
      (left : job.retries < max_job_retries) where
    attempt_republish_ok :
        (w : W) → attempt_republish fx job w ≡ some (queued w, (code_temporary, none))
    unfolding attempt_republish
    attempt_republish_ok w = ground (arith, republish_ok w)

    heed_retry_after_ok :
        (res : Response) (w : W) → (w1 : W) × (heed_retry_after fx res w ≡ some w1)
    unfolding heed_retry_after
    heed_retry_after_ok res w = elim (Bool-cases (get "Retry-After" res.headers == "")) [
      | inl absent ↦ (w, rw absent)
      | inr given ↦ (
        paused res.url (fx.parse_seconds (get "Retry-After" res.headers)) w,
        rw given (pause_ok res.url _ w),
      )
    ]

    handle_response_ok :
        (res : Response) (err : Error) (w : W)
        → retryable (some res) err ≡ true
        → (w' : W) × (handle_response fx job res w ≡ some (w', (code_temporary, none)))
    unfolding handle_response
    handle_response_ok res err w r =
        let (w1, heeded) = heed_retry_after_ok res w in
        elim (Bool-cases (res.status_code == 500 || res.status_code == 504)) [
          | inl failing ↦ (queued w, ground (arith, attempt_republish_ok w))
          | inr answered ↦ (queued w1, ground (arith, heeded, attempt_republish_ok w1))
        ]

    -- If pausing always works and publishing the job always succeeds, and the job has retries left,
    -- a failure that is one to retry is handled as temporary, with no error.
    pub temporary_complete :
        (res : Option Response) (err : Error) (w : W)
        → retryable res err ≡ true
        → (w' : W) × (handle_failed_visit fx job res err w ≡ some (w', (code_temporary, none)))
    unfolding handle_failed_visit
    temporary_complete none err w r = (queued w, ground (arith, attempt_republish_ok w))
    temporary_complete (some res) err w r = handle_response_ok res err w r
