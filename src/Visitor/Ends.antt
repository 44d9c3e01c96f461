-- ===== src/Visitor/Ends.antt =====
-- How the processing of a job ends.
use tobey.Common.{
  ◌≡◌, refl, true, Option, none, some, arith, inl, inr, Option-cases, >>=-eq-some, subst, List, ◌∷◌,
}
use tobey.Failure.{Error}
use tobey.Progress.{Status, state_crawled, state_crawling, state_succeeded}
use tobey.Progress.Memory.{is_done}
use tobey.Run.{Run}
use tobey.Ctrlq.Job.{VisitJob, validate, Invalid}
use tobey.Visitor.Failed.{temporary_sound}
use tobey.Visitor.{
  Response, Code, code_unknown, code_unhandled, code_permanent, code_temporary, code_ignore, Fault,
  Handled, Parts, handle_failed_visit, conclusion, report_maybe, conclude, sample,
  visit_and_conclude, process, run, returns, Event, job,
}

module _ {W : Type 0} (x : Parts W) where
  -- The ways in which `process` returns normally: a last report of a final status, or a job that was
  -- published again and stays in the state of the report before.
  pub data Ends (j : VisitJob) (w' : W) : Type 0 where
    reported : (s : Status) (w : W) → is_done s ≡ true → w' ≡ x.report j s w → Ends j w'
    retried : (w : W) → x.republish j w ≡ some (w', none) → Ends j w'

  conclusion-Ends :
      (j : VisitJob) (c : Code) (fault : Option Fault) (w : W)
      → (c ≡ code_temporary → (w0 : W) × (x.republish j w0 ≡ some (w, none)))
      → Ends j (report_maybe x j (conclusion (c, fault)).0 w)
  conclusion-Ends j code_ignore fault w h = reported _ w refl refl
  conclusion-Ends j code_permanent fault w h = reported _ w refl refl
  conclusion-Ends j code_unknown fault w h = reported _ w refl refl
  conclusion-Ends j code_unhandled fault w h = reported _ w refl refl
  conclusion-Ends j code_temporary fault w h = let (w0, e) = h refl in retried w0 e

  handled-Ends :
      (j : VisitJob) (handled : Handled) (w : W)
      → (handled.0 ≡ code_temporary → (w0 : W) × (x.republish j w0 ≡ some (w, none)))
      → Ends j (report_maybe x j (conclusion handled).0 w)
  handled-Ends j (c, fault) w h = conclusion-Ends j c fault w h

  temporary-republished :
      (j : VisitJob) (res : Option Response) (err : Error) (w w1 : W) (handled : Handled)
      → handle_failed_visit x.effects j res err w ≡ some (w1, handled)
      → handled.0 ≡ code_temporary
      → (w0 : W) × (x.republish j w0 ≡ some (w1, none))
  temporary-republished j res err w w1 (c, fault) e t =
      let (w0, rest) =
        (temporary_sound x.effects j res err w w1 fault (
          subst (λ (d : Code). handle_failed_visit x.effects j res err w ≡ some (w1, (d, fault))) t
            e)).1 in
      (w0, rest.2)

  conclude-Ends :
      (j : VisitJob) (res : Option Response) (err : Option Error) (w w' : W) (fault : Option Fault)
      → conclude x j res err w ≡ some (w', fault)
      → Ends j w'
  unfolding conclude
  conclude-Ends j none none w w' fault e = cc e
  conclude-Ends j (some res) none w w' fault e = reported state_succeeded w refl (ground arith)
  conclude-Ends j res (some err) w w' fault e =
      let ((w1, handled), h, rest) = >>=-eq-some (handle_failed_visit x.effects j res err w) _ e in
      subst (Ends j) (ground arith)
        (handled-Ends j handled w1 (temporary-republished j res err w w1 handled h))

  visit_and_conclude-Ends :
      (j : VisitJob) (r : Run) (w w' : W) (fault : Option Fault)
      → visit_and_conclude x j r w ≡ some (w', fault)
      → Ends j w'
  unfolding visit_and_conclude
  visit_and_conclude-Ends j r w w' fault e =
      let ((w1, res, err), _, rest) =
        >>=-eq-some (x.visit r j.url (x.report j state_crawling w)) _ e in
      let (w2, _, last) = >>=-eq-some (sample x j res err w1) _ rest in
      conclude-Ends j res err (x.report j state_crawled w2) w' fault last

  -- However `process` returns, if it does, the job ends in one of these ways.
  pub process-Ends :
      (j : VisitJob) (w w' : W) (fault : Option Fault)
      → process x j w ≡ some (w', fault)
      → Ends j w'
  unfolding process
  process-Ends j w w' fault e = elim (Option-cases (x.get_run j.run w).1) [
    | inl missing ↦ cc (rw (missing, process) at e)
    | inr (r, found) ↦
        visit_and_conclude-Ends j r (x.get_run j.run w).0 w' fault (rw (found, process) at e)
  ]

  -- A job whose run is no longer known stops the whole program.
  pub process_unknown_run :
      (j : VisitJob) (w : W) → (x.get_run j.run w).1 ≡ none → process x j w ≡ none
  unfolding process
  process_unknown_run j w e = rw (e, process)

  -- A job without a run or a URL ends the worker: it returns with no error, and what comes after
  -- stays unread.
  pub invalid_job_ends_worker :
      (j : VisitJob) (invalid : Invalid) (es : List Event) (w : W)
      → validate j ≡ some invalid
      → run x (job j ∷ es) w ≡ returns none w
  unfolding run
  invalid_job_ends_worker j invalid es w e = rw (e, run)
