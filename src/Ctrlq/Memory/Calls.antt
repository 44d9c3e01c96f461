-- ===== src/Ctrlq/Memory/Calls.antt =====
-- The calls of the work queue, and its invariant.
use tobey.Common.{
  ℕ, String, ◌+◌, ◌≤◌, ◌≡◌, refl, ap, ltb, ◌==◌, ◌||◌, Bool, true, false, Option, some, Bool-cases,
  inl, inr, nat_eq, if◌then◌else◌, not, Returns, Returns-bind,
}
use tobey.Failure.{Error}
use tobey.Headers.{Header}
use tobey.Url.{UrlLib}
use tobey.Ctrlq.Job.{Carrier, VisitJob}
use tobey.Ctrlq.Hosts.{guess_host}
use tobey.Ctrlq.Limiter.{RateLib, get_limit, min_host_rps}
use tobey.Ctrlq.Controlled.{ControlledQueue, pause, unix}
use tobey.Ctrlq.Optimizer.{new_rate_limit_by_headers, new_rate_limit_by_latency}
use tobey.Ctrlq.Optimizer.Bounds.{headers_bounds, latency_floor}
use tobey.Ctrlq.Memory.{
  MemoryVisitWorkQueue, lazy_host_queue, enqueue, publish, republish, pause_host, tune,
  take_rate_limit_headers, take_sample, trigger_recalc, count_id,
}
use tobey.Ctrlq.Memory.Invariant.{
  IsSound, Inv, Found, put_queue-Inv, lazy_host_queue-Inv, enqueue-Inv,
}

pair_eq : {answer : Bool × ℕ} → answer.0 ≡ true → answer ≡ (true, answer.1)
pair_eq {answer} e = ap (λ (b : Bool). (b, answer.1)) e

module _ (urls : UrlLib) (x : RateLib) where
  open x use {Bucket}

  if-Returns :
      (adaptive : Bool) (wq wq' : MemoryVisitWorkQueue Bucket)
      → Inv urls x wq
      → Inv urls x wq'
      → Returns (Inv urls x) (if not adaptive then some wq else some wq')
  if-Returns true wq wq' v v' = v'
  if-Returns false wq wq' v v' = v

  pub publish-Returns :
      (now : ℕ) (carrier : Carrier) (run url : String) (wq : MemoryVisitWorkQueue Bucket)
      → Inv urls x wq
      → Returns (Inv urls x) (publish urls x now carrier run url wq)
  unfolding publish trigger_recalc
  publish-Returns now carrier run url wq v =
      Returns-bind (Found urls x url) (Inv urls x) (lazy_host_queue urls x url wq) _
        (lazy_host_queue-Inv urls x url wq v)
        λ r found.
          Returns-bind (Inv urls x) (Inv urls x)
            (enqueue urls x (guess_host urls url) r.1 _ (count_id r.0)) _
            (enqueue-Inv urls x (guess_host urls url) r.1 _ (count_id r.0) found.1 refl
              (record { default_fits = found.0.default_fits; hosts = found.0.hosts }))
            λ wq2 v2. record { default_fits = v2.default_fits; hosts = v2.hosts }

  pub republish-Returns :
      (job : VisitJob) (wq : MemoryVisitWorkQueue Bucket)
      → Inv urls x wq
      → Returns (Inv urls x) (republish urls x job wq)
  unfolding republish trigger_recalc
  republish-Returns job wq v =
      Returns-bind (Found urls x job.url) (Inv urls x) (lazy_host_queue urls x job.url wq) _
        (lazy_host_queue-Inv urls x job.url wq v)
        λ r found.
          Returns-bind (Inv urls x) (Inv urls x)
            (enqueue urls x (guess_host urls job.url) r.1 _ (count_id r.0)) _
            (enqueue-Inv urls x (guess_host urls job.url) r.1 _ (count_id r.0) found.1 refl
              (record { default_fits = found.0.default_fits; hosts = found.0.hosts }))
            λ wq2 v2. record { default_fits = v2.default_fits; hosts = v2.hosts }

  pause-IsSound :
      (key now d : ℕ) (hq : ControlledQueue Bucket)
      → IsSound urls x key hq
      → IsSound urls x key (pause hq now d).0
  unfolding pause
  pause-IsSound key now d hq s =
      elim (Bool-cases (hq.paused_until == 0 || ltb hq.paused_until (unix (now + d)))) [
        | inl longer ↦
            rw longer
              (record { named = s.named; fits = s.fits; sorted = s.sorted; floor = s.floor })
        | inr shorter ↦ rw shorter s
      ]

  pub pause_host-Returns :
      (now : ℕ) (url : String) (d : ℕ) (wq : MemoryVisitWorkQueue Bucket)
      → Inv urls x wq
      → Returns (Inv urls x) (pause_host urls x now url d wq)
  unfolding pause_host
  pause_host-Returns now url d wq v =
      Returns-bind (Found urls x url) (Inv urls x) (lazy_host_queue urls x url wq) _
        (lazy_host_queue-Inv urls x url wq v)
        λ r found.
          put_queue-Inv urls x (guess_host urls url) (pause r.1 now d).0 r.0
            (pause-IsSound (guess_host urls url) now d r.1 found.1) found.0

  tune-Inv :
      (key : ℕ) (hq : ControlledQueue Bucket) (answer : Bool × ℕ) (wq : MemoryVisitWorkQueue Bucket)
      → (answer.0 ≡ true → min_host_rps ≤ answer.1)
      → IsSound urls x key hq
      → Inv urls x wq
      → Inv urls x (tune urls x key hq answer wq)
  unfolding tune get_limit
  tune-Inv key hq (false, desired) wq h s v = v
  tune-Inv key hq (true, desired) wq h s v =
      put_queue-Inv urls x key _ wq
        (record {
          named = s.named;
          fits = s.fits;
          sorted = s.sorted;
          floor = rw (x.limit-set_limit hq.limiter.bucket desired) (h refl);
        })
        v

  pub take_rate_limit_headers-Returns :
      (url : String) (hdr : Header) (wq : MemoryVisitWorkQueue Bucket)
      → Inv urls x wq
      → Returns (Inv urls x) (take_rate_limit_headers urls x url hdr wq)
  unfolding take_rate_limit_headers
  take_rate_limit_headers-Returns url hdr wq v =
      Returns-bind (Found urls x url) (Inv urls x) (lazy_host_queue urls x url wq) _
        (lazy_host_queue-Inv urls x url wq v)
        λ r found. if-Returns r.1.is_adaptive r.0 _ found.0 (
          tune-Inv (guess_host urls url) r.1
            (new_rate_limit_by_headers (get_limit x r.1.limiter) hdr) r.0
            (λ e. (headers_bounds (get_limit x r.1.limiter) hdr _ (pair_eq e)).0) found.1 found.0)

  pub take_sample-Returns :
      (url : String) (status_code : ℕ) (err : Option Error) (d : ℕ)
      (wq : MemoryVisitWorkQueue Bucket)
      → Inv urls x wq
      → Returns (Inv urls x) (take_sample urls x url status_code err d wq)
  unfolding take_sample
  take_sample-Returns url status_code err d wq v =
      Returns-bind (Found urls x url) (Inv urls x) (lazy_host_queue urls x url wq) _
        (lazy_host_queue-Inv urls x url wq v)
        λ r found. if-Returns r.1.is_adaptive r.0 _ found.0 (
          tune-Inv (guess_host urls url) r.1
            (new_rate_limit_by_latency (get_limit x r.1.limiter) status_code err d) r.0
            (λ e. latency_floor (get_limit x r.1.limiter) status_code d err _ (pair_eq e)) found.1
            found.0)
