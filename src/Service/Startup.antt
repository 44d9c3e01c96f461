-- ===== src/Service/Startup.antt =====
-- service of main.go up to its wait, with maybeRedis of conns.go and CreateWorkQueue of
-- internal/ctrlq/main.go: what the service is when its two servers listen. `none` is an end of the
-- process, by a panic or log.Fatal. What the parts ask of the outside world are parameters.
use tobey.Common.{
  String, Bool, true, false, ◌&&◌, Option, none, some, ◌>>=◌, is_some, ◌≡◌, ap, if◌then◌else◌, ◌==◌,
  string_eq, length, subst, Returns-some, >>=-eq-some,
}
use mathlib.Core.Option.{some-injective}
use tobey.Common.Int.{ℤ, pos, negsuc}
use tobey.Failure.{Error}
use tobey.Url.{UrlLib}
use tobey.Config.{Settings}
use tobey.Observe.{OtelLib, start_otel}
use tobey.Ctrlq.Memory.{MemoryVisitWorkQueue, new_memory_visit_work_queue, open_queue}
use tobey.Reporters.{
  PathLib, Result, ok, err, ResultReporter, ProgressReporter, create_result_reporter,
  create_progress_reporter,
}
use tobey.Service.{VisitorPool, new_visitor_pool, health_status}
use tobey.Service.Laws.{pool_healthy}

-- CreateWorkQueue, for whether there is a connection to Redis
unfoldable pub create_work_queue : {L : Type 0} → Bool → MemoryVisitWorkQueue L
unfolding new_memory_visit_work_queue
create_work_queue redis = if redis then new_memory_visit_work_queue else new_memory_visit_work_queue

pub record Outside : Type 0 where
  pub env : String → String
  pub otel : OtelLib
  -- runtime.Start of the instrumentation
  pub runtime_start : Option Error
  -- Connecting by a DSN, in the end, and the instrumentation of the connection
  pub connect : String → Option Error
  pub instrument_tracing : Option Error
  pub instrument_metrics : Option Error

-- maybeRedis: whether there is a connection, and the error.
unfoldable pub maybe_redis : Outside → Settings → Bool × Option Error
maybe_redis o s =
    let dsn = o.env "TOBEY_REDIS_DSN" in
    if dsn == "" then (false, none) else elim (o.connect dsn) [
      | some e ↦ (false, some e)
      | none ↦
          if s.use_tracing && is_some o.instrument_tracing
          then (true, o.instrument_tracing)
          else if s.use_metrics && is_some o.instrument_metrics
          then (true, o.instrument_metrics)
          else (true, none)
    ]

-- The parts that a service runs with; that it pulses says that startPulse was called.
pub record Running (L : Type 0) : Type 0 where
  pub pulses : Bool
  pub redis : Bool
  pub queue : MemoryVisitWorkQueue L
  pub result_reporter : ResultReporter
  pub progress_reporter : ProgressReporter
  pub pool : VisitorPool

abbrev pub refuse : Option Error → Option (Unit {0})
refuse (some e) = none
refuse none = some tt

abbrev pub configured : {A : Type 0} → Result A → Option A
configured (ok a) = some a
configured (err e) = none

module _ (urls : UrlLib) (x : PathLib) (o : Outside) where
  abbrev pub runtime_error : Settings → Option Error
  runtime_error s = if s.use_metrics then o.runtime_start else none

  abbrev pub default_reporter : Settings → Result ResultReporter
  default_reporter s =
      create_result_reporter urls x s.dynamic_config (o.env "TOBEY_RESULT_REPORTER_DSN")

  abbrev pub progress_of : Result ProgressReporter
  progress_of = create_progress_reporter urls x (o.env "TOBEY_PROGRESS_DSN")

  -- service. The queue's Open has no error to return.
  unfoldable pub service : {L : Type 0} → Settings → Option (Running L)
  unfolding start_otel maybe_redis create_work_queue open_queue create_result_reporter
      create_progress_reporter new_visitor_pool
  service s = do
    a ← refuse (start_otel s.use_tracing s.use_metrics o.otel o.env).1
    b ← refuse (runtime_error s)
    c ← refuse (maybe_redis o s).1
    rr ← configured (default_reporter s)
    pr ← configured progress_of
    pool ← new_visitor_pool s.num_visit_workers
    some record {
      pulses = s.use_pulse;
      redis = (maybe_redis o s).0;
      queue = open_queue (create_work_queue (maybe_redis o s).0);
      result_reporter = rr;
      progress_reporter = pr;
      pool = pool;
    }

  pool-healthy :
      (n : ℤ) (pool : VisitorPool)
      → new_visitor_pool n ≡ some pool
      → (pos (length pool.workers) ≡ n) × (health_status pool ≡ 200)
  unfolding new_visitor_pool
  pool-healthy (negsuc n) pool e = cc e
  pool-healthy (pos n) pool e =
      let (count, healthy) =
        Returns-some (λ p. (length p.workers ≡ n) × (health_status p ≡ 200))
          (new_visitor_pool (pos n)) (pool_healthy n) e in
      (ap pos count, healthy)

  -- A service that comes up has as many workers as its settings say, and is healthy.
  pub service_runs :
      (L : Type 0) (s : Settings) (r : Running L)
      → service s ≡ some r
      → (pos (length r.pool.workers) ≡ s.num_visit_workers) × (health_status r.pool ≡ 200)
  unfolding service
  service_runs L s r e =
      let (_, _, e1) =
        >>=-eq-some (refuse (start_otel s.use_tracing s.use_metrics o.otel o.env).1) _ e in
      let (_, _, e2) = >>=-eq-some (refuse (runtime_error s)) _ e1 in
      let (_, _, e3) = >>=-eq-some (refuse (maybe_redis o s).1) _ e2 in
      let (rr, _, e4) = >>=-eq-some (configured (default_reporter s)) _ e3 in
      let (pr, _, e5) = >>=-eq-some (configured progress_of) _ e4 in
      let (pool, made, e6) = >>=-eq-some (new_visitor_pool s.num_visit_workers) _ e5 in
      subst
        (λ (q : Running L).
          (pos (length q.pool.workers) ≡ s.num_visit_workers) × (health_status q.pool ≡ 200))
        (some-injective _ r e6) (pool-healthy s.num_visit_workers pool made)
