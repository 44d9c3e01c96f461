-- ===== src/System/Visiting/Laws.antt =====
-- What the visitors of a run publish, through the collector that run.go gives them.
use tobey.Common.{
  String, Option, none, some, ◌≡◌, ◌∙◌, refl, ap, Returns, Returns-both, Returns-mono, Option-cases,
  inl, inr,
}
use tobey.Headers.{Header}
use tobey.Url.{Url}
use tobey.Run.{Run}
use tobey.Ctrlq.Job.{Carrier, VisitJob}
use tobey.Ctrlq.Memory.{MemoryVisitWorkQueue, republish}
use tobey.Ctrlq.Memory.Numbers.{
  SameNumber, pause_host-SameNumber, take_rate_limit_headers-SameNumber, take_sample-SameNumber,
}
use tobey.RunManager.Laws.{get_run-cached}
use tobey.Collector.{CollectorLib}
use tobey.Collector.Fetching.{FetchLib}
use tobey.Collector.Keeping.{visits_keep}
use tobey.Visitor.{Response, process}
use tobey.Visitor.Keeping.{process-Kept, First, Visited}
use tobey.System.{Libs, Tobey, parts, keep, republish_in, get_run_in}
use tobey.System.Discovery.{Discovery, Discovers, enqueue-Discovery, enqueue-entries}
use tobey.System.Enqueue.{enqueue}
use tobey.System.Visiting.{Wire, get_client, get_collector, scraper, visit_run, crawler}

module _ (x : Libs) (y : CollectorLib) (z : FetchLib) (wire : Wire (Tobey x))
    (collect : Run → Response → Tobey x → Tobey x) where
  -- A run's client leaves the runs and the queue alone, and so does the reporting of results.
  pub record LeavesRuns (run : Run) : Type 0 where
    pub client-runs :
        (url : Url) (hdr : Header) (w : Tobey x) → (get_client wire run url hdr w).0.runs ≡ w.runs
    pub client-queue :
        (url : Url) (hdr : Header) (w : Tobey x) → (get_client wire run url hdr w).0.queue ≡ w.queue
    pub collect-runs : (res : Response) (w : Tobey x) → (collect run res w).runs ≡ w.runs
    pub collect-queue : (res : Response) (w : Tobey x) → (collect run res w).queue ≡ w.queue

  module _ (run : Run) (carrier : Carrier) (leaves : LeavesRuns run) where
    open leaves use {client-runs, client-queue, collect-runs, collect-queue}

    -- The run is in the cache, and what was published since `w` is known.
    abbrev pub Crawling : Tobey x → Tobey x → Type 0
    Crawling w v =
        ((x.lru.get run.id v.runs.entries).0 ≡ some run)
        × Discovery x y (get_collector wire.max_redirects run) run carrier w v

    moved :
        (w v v' : Tobey x)
        → (x.lru.get run.id v'.runs.entries).0 ≡ (x.lru.get run.id v.runs.entries).0
        → v'.runs.store ≡ v.runs.store
        → v'.queue.next_id ≡ v.queue.next_id
        → Crawling w v
        → Crawling w v'
    moved w v v' entry store number (cached, (us, d)) =
        (entry ∙ cached, (us, Discovers.elsewhere v' store number d))

    pub same_runs :
        (w v v' : Tobey x)
        → v'.runs ≡ v.runs
        → v'.queue.next_id ≡ v.queue.next_id
        → Crawling w v
        → Crawling w v'
    same_runs w v v' same number h =
        moved w v v' (ap (λ rs. (x.lru.get run.id rs.entries).0) same) (ap (λ rs. rs.store) same)
          number h

    pub enqueue-Crawling :
        (w : Tobey x) (url : String) (v : Tobey x)
        → Crawling w v
        → Returns (Crawling w) ((scraper x y z wire collect carrier run).enqueue url v)
    enqueue-Crawling w url v (cached, d) =
        let c = get_collector wire.max_redirects run in
        Returns-mono (λ v'. (v'.runs.entries ≡ v.runs.entries) × Discovery x y c run carrier w v')
          (Crawling w) (λ v' (same, d'). (ap (λ es. (x.lru.get run.id es).0) same ∙ cached, d'))
          (enqueue x y c run carrier url v)
          (Returns-both _ _ _ (enqueue-entries x y c run carrier v url)
            (enqueue-Discovery x y c run carrier w v url d))

    visit-Crawling :
        (w : Tobey x) (url : String) (v : Tobey x)
        → Crawling w v
        → Returns (Visited (Crawling w)) (visit_run x y z wire collect carrier run url v)
    unfolding visit_run
    visit-Crawling w url v h =
        visits_keep x.urls y z (scraper x y z wire collect carrier run) (Crawling w)
          (λ u hdr v1 h1.
            same_runs w v1 _ (client-runs u hdr v1) (ap (λ q. q.next_id) (client-queue u hdr v1))
              h1)
          (enqueue-Crawling w)
          (λ res v1 h1.
            same_runs w v1 _ (collect-runs res v1) (ap (λ q. q.next_id) (collect-queue res v1)) h1)
          (get_collector wire.max_redirects run) url v h

    keep-Crawling :
        (w v : Tobey x) (q : Option (MemoryVisitWorkQueue x.rates.Bucket))
        → Returns (SameNumber x.urls x.rates v.queue) q
        → Crawling w v
        → Returns (Crawling w) (keep v q)
    keep-Crawling w v none number h = tt
    keep-Crawling w v (some q) number h = same_runs w v (record v { queue = q }) refl number h

    republish_in-Crawling :
        (w : Tobey x) (job : VisitJob) (v : Tobey x)
        → Crawling w v
        → Returns (First (Crawling w)) (republish_in x job v)
    unfolding republish_in
    republish_in-Crawling w job v (cached, (us, d)) =
        elim (Option-cases (republish x.urls x.rates job v.queue)) [
          | inl panics ↦ rw (panics, republish_in) tt
          | inr (q, put) ↦
              rw (put, republish_in)
                (cached, (us, Discovers.retried job (record v { queue = q }) refl put d))
        ]

    get_run_in-Crawling :
        (w : Tobey x) (job : VisitJob)
        → job.run ≡ run.id
        → (v : Tobey x) → Crawling w v
        → Crawling w (get_run_in x job.run v).0 × ((get_run_in x job.run v).1 ≡ some run)
    unfolding get_run_in
    get_run_in-Crawling w job mine v h =
        rw (mine, get_run-cached x.lru run.id run v.runs h.0)
          (moved w v _ (x.lru.get-get run.id v.runs.entries) refl refl h, refl)

    -- A job of the run, while the cache has it.
    pub process-Crawling :
        (w : Tobey x) (job : VisitJob) (v : Tobey x)
        → job.run ≡ run.id
        → Crawling w v
        → Returns (First (Crawling w)) (process (parts (crawler x y z wire collect carrier)) job v)
    unfolding parts
    process-Crawling w job v mine h =
        process-Kept (Crawling w) (parts (crawler x y z wire collect carrier))
          (λ u d v1 h1.
            keep-Crawling w v1 _ (pause_host-SameNumber x.urls x.rates v1.now u d v1.queue) h1)
          (republish_in-Crawling w) (λ j status v1 h1. same_runs w v1 _ refl refl h1)
          (λ u hdr v1 h1.
            keep-Crawling w v1 _ (take_rate_limit_headers-SameNumber x.urls x.rates u hdr v1.queue)
              h1)
          (λ u code err d v1 h1.
            keep-Crawling w v1 _ (take_sample-SameNumber x.urls x.rates u code err d v1.queue) h1)
          job run (get_run_in-Crawling w job mine) (λ v1 h1. visit-Crawling w job.url v1 h1) v h
