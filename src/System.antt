-- ===== src/System.antt =====
-- How main.go puts the parts together: workers that share the work queue, the memory reporter and
-- the run manager. One reading of the clock serves a job.
pub mod Enqueue
pub mod Crawl
pub mod Discovery
pub mod Visiting
use tobey.Common.{
  ℕ, String, ◌≡◌, ◌∙◌, refl, ap, sym, subst, Bool, true, false, Option, none, some, ◌>>=◌,
  >>=-eq-some, arith, ◌⊎◌, inl, inr, eq_refl, >>=-eq-some, is_some, string_eq,
}
use mathlib.Core.Option.{some-injective}
use tobey.Failure.{Error}
use tobey.Headers.{Header}
use tobey.Url.{UrlLib}
use tobey.Progress.{Status, Update, with_url, update}
use tobey.Progress.Memory.{MemoryReporter, memory_reporter, call, is_done}
use tobey.Progress.Memory.Laws.{last_update, last_update-call}
use tobey.Run.{Run}
use tobey.RunManager.{LruLib, RunManager, get_run, add_run}
use tobey.RunManager.Laws.{evicted_run_lost}
use tobey.Visitor.{Response, Fault, Effects, Parts, process}
use tobey.Visitor.Ends.{Ends, reported, retried, process-Ends, process_unknown_run}
use tobey.Ctrlq.Job.{VisitJob}
use tobey.Ctrlq.Limiter.{RateLib}
use tobey.Ctrlq.Memory.{
  MemoryVisitWorkQueue, republish, pause_host, take_rate_limit_headers, take_sample,
}

pub record World (C L : Type 0) : Type 0 where
  pub queue : MemoryVisitWorkQueue L
  pub progress : MemoryReporter
  pub runs : RunManager C
  pub now : ℕ

abbrev keep : {C L : Type 0} → World C L → Option (MemoryVisitWorkQueue L) → Option (World C L)
keep w o = do q ← o; some (record w { queue = q })

-- The libraries that the parts rest on, the network among them: `visit` is what a collector does.
pub record Libs : Type 1 where
  pub urls : UrlLib
  pub rates : RateLib
  pub lru : LruLib
  pub parse_seconds : String → ℕ
  pub visit :
      Run
      → String
      → World lru.Cache rates.Bucket
      → Option (World lru.Cache rates.Bucket × Option Response × Option Error)

module _ (x : Libs) where
  open x use {urls, rates, lru}

  abbrev pub Tobey : Type 0
  Tobey = World lru.Cache rates.Bucket

  republish_in : VisitJob → Tobey → Option (Tobey × Option Error)
  republish_in job w = do w1 ← keep w (republish urls rates job w.queue); some (w1, none)

  report_in : VisitJob → Status → Tobey → Tobey
  unfolding with_url update memory_reporter
  report_in job status w = record w {
    progress =
        (update memory_reporter (with_url memory_reporter job.run job.url) w.now status
          w.progress).0;
  }

  get_run_in : String → Tobey → Tobey × Option Run
  get_run_in id w = (record w { runs = (get_run lru id w.runs).0 }, (get_run lru id w.runs).1)

  -- What a worker of the visitor pool works with.
  unfoldable pub parts : Parts Tobey
  unfolding republish_in report_in get_run_in
  parts = record {
    effects = record {
      pause = λ url d w. keep w (pause_host urls rates w.now url d w.queue);
      republish = republish_in;
      parse_seconds = x.parse_seconds;
    };
    get_run = get_run_in;
    report = report_in;
    visit = x.visit;
    take_rate_limit_headers =
        λ url hdr w. keep w (take_rate_limit_headers urls rates url hdr w.queue);
    take_sample = λ url code err d w. keep w (take_sample urls rates url code err d w.queue);
  }

  last_update-report :
      (job : VisitJob) (status : Status) (w : Tobey)
      → (u : Update) × (last_update job.run job.url (parts.report job status w).progress ≡ some u)
        × (u.status ≡ status)
  unfolding parts
  last_update-report job status w =
      let u : Update = record {
        run_id = job.run;
        url = job.url;
        stage = "initial";
        status = status;
        created = w.now;
      } in
      (
        u,
        last_update-call u w.progress job.run job.url ∙ rw (eq_refl job.run, eq_refl job.url),
        refl,
      )

  -- The world behind a successful republication holds the queue that was published to.
  republished_queue :
      (job : VisitJob) (w w' : Tobey)
      → parts.republish job w ≡ some (w', none)
      → republish urls rates job w.queue ≡ some w'.queue
  unfolding parts republish_in
  republished_queue job w w' e =
      let (w1, kept, same) = >>=-eq-some (keep w (republish urls rates job w.queue)) _ e in
      let (q, sent, put) = >>=-eq-some (republish urls rates job w.queue) _ kept in
      sent
      ∙ ap some (
          ap World.queue (
            some-injective (record w { queue = q }) w1 put
            ∙ ap (λ r. r.0) (some-injective (w1, none) (w', none) same)))

  -- If processing a job returns, with a fault or without, then either the last update of its URL is
  -- of a final status, or the job was published again to the work queue that is left.
  pub process_settles :
      (job : VisitJob) (w w' : Tobey) (fault : Option Fault)
      → process parts job w ≡ some (w', fault)
      → ((u : Update) × (last_update job.run job.url w'.progress ≡ some u)
          × (is_done u.status ≡ true))
        ⊎ ((w0 : Tobey) × (republish urls rates job w0.queue ≡ some w'.queue))
  process_settles job w w' fault e = elim (process-Ends parts job w w' fault e) [
    | reported status w0 final same ↦
        let (u, last, of_status) = last_update-report job status w0 in
        inl (u, rw (same, last), rw (of_status, final))
    | retried w0 again ↦ inr (w0, republished_queue job w0 w' again)
  ]

  -- Processing a job of a run that was evicted, since another run was added to a full cache,
  -- panics.
  pub evicted_run_panics :
      (job : VisitJob) (run v : Run) (w : Tobey)
      → (lru.add run w.runs.entries).1 ≡ some v
      → job.run ≡ v.id
      → process parts job (record w { runs = (add_run lru run w.runs).0 }) ≡ none
  unfolding parts
  evicted_run_panics job run v w e same =
      process_unknown_run parts job _ (rw (same, evicted_run_lost lru run v w.runs e))
