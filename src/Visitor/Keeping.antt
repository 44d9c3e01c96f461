-- ===== src/Visitor/Keeping.antt =====
-- Invariants of the processing of a job, from those of what the visitor works with.
use tobey.Common.{
  ℕ, String, ◌≡◌, ◌||◌, Option, none, some, Bool, true, false, Returns, Returns-bind, if◌then◌else◌,
  leb, ◌==◌, nat_eq, string_eq,
}
use tobey.Failure.{Error, is_deadline_exceeded}
use tobey.Headers.{Header, get}
use tobey.Progress.{Status, state_crawled, state_crawling, state_succeeded}
use tobey.Run.{Run}
use tobey.Ctrlq.Job.{VisitJob}
use tobey.Visitor.{
  Response, Effects, Parts, max_job_retries, attempt_republish, heed_retry_after, is_redirect,
  handle_response, handle_failed_visit, conclusion, report_maybe, republished, conclude, sample,
  visit_and_conclude, process,
}

pub Returns-if :
    {A : Type 0} (P : A → Type 0) (b : Bool) (m n : Option A)
    → Returns P m
    → Returns P n
    → Returns P (if b then m else n)
Returns-if P true m n h k = h
Returns-if P false m n h k = k

module _ {W : Type 0} (P : W → Type 0) where
  abbrev pub First : {B : Type 0} → W × B → Type 0
  First (w, b) = P w

  abbrev pub Visited : W × Option Response × Option Error → Type 0
  Visited (w, res, err) = P w

  module _ (fx : Effects W)
      (pauses : (url : String) (d : ℕ) (w : W) → P w → Returns P (fx.pause url d w))
      (republishes : (job : VisitJob) (w : W) → P w → Returns First (fx.republish job w)) where
    republished-Kept : (r : W × Option Error) → P r.0 → P (republished fx r).0
    republished-Kept (v, none) h = h
    republished-Kept (v, some e) h = h

    attempt_republish-Kept :
        (job : VisitJob) (w : W) → P w → Returns First (attempt_republish fx job w)
    unfolding attempt_republish
    attempt_republish-Kept job w h =
        Returns-if First (leb max_job_retries job.retries) _ _ h
          (Returns-bind First First (fx.republish job w) _ (republishes job w h) republished-Kept)

    heed_retry_after-Kept : (res : Response) (w : W) → P w → Returns P (heed_retry_after fx res w)
    unfolding heed_retry_after
    heed_retry_after-Kept res w h =
        Returns-if P (get "Retry-After" res.headers == "") _ _ h (pauses res.url _ w h)

    handle_response-Kept :
        (job : VisitJob) (res : Response) (w : W)
        → P w
        → Returns First (handle_response fx job res w)
    unfolding handle_response
    handle_response-Kept job res w h =
        Returns-if First (is_redirect res.status_code || res.status_code == 404) _ _ h (
          Returns-if First (res.status_code == 500 || res.status_code == 504) _ _
            (attempt_republish-Kept job w h)
            (Returns-if First (res.status_code == 429 || res.status_code == 503) _ _
              (Returns-bind P First (heed_retry_after fx res w) _ (heed_retry_after-Kept res w h)
                (attempt_republish-Kept job))
              h))

    pub handle_failed_visit-Kept :
        (job : VisitJob) (res : Option Response) (err : Error) (w : W)
        → P w
        → Returns First (handle_failed_visit fx job res err w)
    unfolding handle_failed_visit
    handle_failed_visit-Kept job (some res) err w h = handle_response-Kept job res w h
    handle_failed_visit-Kept job none err w h =
        Returns-if First (is_deadline_exceeded err) _ _ (attempt_republish-Kept job w h) h

  module _ (x : Parts W)
      (pauses : (url : String) (d : ℕ) (w : W) → P w → Returns P (x.pause url d w))
      (republishes : (job : VisitJob) (w : W) → P w → Returns First (x.republish job w))
      (reports : (job : VisitJob) (status : Status) (w : W) → P w → P (x.report job status w))
      (heads : (url : String) (hdr : Header) (w : W)
        → P w
        → Returns P (x.take_rate_limit_headers url hdr w))
      (samples : (url : String) (code : ℕ) (err : Option Error) (d : ℕ) (w : W)
        → P w
        → Returns P (x.take_sample url code err d w)) where
    sample-Kept :
        (job : VisitJob) (res : Option Response) (err : Option Error) (w : W)
        → P w
        → Returns P (sample x job res err w)
    unfolding sample
    sample-Kept job none err w h = samples job.url 0 err 0 w h
    sample-Kept job (some res) err w h =
        Returns-bind P P (x.take_rate_limit_headers job.url res.headers w) _
          (heads job.url res.headers w h)
          λ w1 h1. samples job.url res.status_code err res.took w1 h1

    report_maybe-Kept :
        (job : VisitJob) (status : Option Status) (w : W) → P w → P (report_maybe x job status w)
    report_maybe-Kept job none w h = h
    report_maybe-Kept job (some status) w h = reports job status w h

    conclude-Kept :
        (job : VisitJob) (res : Option Response) (err : Option Error) (w : W)
        → P w
        → Returns First (conclude x job res err w)
    unfolding conclude
    conclude-Kept job none none w h = tt
    conclude-Kept job (some res) none w h = reports job state_succeeded w h
    conclude-Kept job res (some err) w h =
        Returns-bind First First (handle_failed_visit x.effects job res err w) _
          (handle_failed_visit-Kept x.effects pauses republishes job res err w h)
          λ (w1, handled) h1. report_maybe-Kept job (conclusion handled).0 w1 h1

    -- For a job whose run is known, and whose visit keeps `P`.
    module _ (job : VisitJob) (r : Run)
        (gets : (w : W) → P w → P (x.get_run job.run w).0 × ((x.get_run job.run w).1 ≡ some r))
        (visits : (w : W) → P w → Returns Visited (x.visit r job.url w)) where
      visit_and_conclude-Kept : (w : W) → P w → Returns First (visit_and_conclude x job r w)
      unfolding visit_and_conclude
      visit_and_conclude-Kept w h =
          Returns-bind Visited First (x.visit r job.url (x.report job state_crawling w)) _
            (visits _ (reports job state_crawling w h))
            λ (w1, res, err) h1.
              Returns-bind P First (sample x job res err w1) _ (sample-Kept job res err w1 h1)
                λ w2 h2.
                  conclude-Kept job res err (x.report job state_crawled w2)
                    (reports job state_crawled w2 h2)

      pub process-Kept : (w : W) → P w → Returns First (process x job w)
      unfolding process
      process-Kept w h =
          let (kept, found) = gets w h in
          rw (found, process) (visit_and_conclude-Kept (x.get_run job.run w).0 kept)
