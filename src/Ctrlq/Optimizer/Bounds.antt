-- ===== src/Ctrlq/Optimizer/Bounds.antt =====
-- The limits that the optimizer asks for.
use tobey.Common.{ℕ, ◌*◌, ◌≤◌, ◌<◌, ◌≡◌, ◌≢◌, true, none, Option, arith, ◌/◌, string_eq}
use tobey.Failure.{Error}
use tobey.Headers.{Header}
use tobey.Ctrlq.Limiter.{min_host_rps, max_host_rps}
use tobey.Ctrlq.Optimizer.{new_rate_limit_by_headers, new_rate_limit_by_latency, whole}

-- From a limit of at most MaxHostRPS, every limit that a sample leads to lies between MinHostRPS and
-- MaxHostRPS.
pub latency_bounds :
    (cur status_code d : ℕ) (err : Option Error) (desired : ℕ)
    → cur ≤ max_host_rps
    → new_rate_limit_by_latency cur status_code err d ≡ (true, desired)
    → (min_host_rps ≤ desired) × (desired ≤ max_host_rps)
unfolding new_rate_limit_by_latency
latency_bounds cur status_code d err desired h e = ground arith

-- A sample never leads below MinHostRPS.
pub latency_floor :
    (cur status_code d : ℕ) (err : Option Error) (desired : ℕ)
    → new_rate_limit_by_latency cur status_code err d ≡ (true, desired)
    → min_host_rps ≤ desired
unfolding new_rate_limit_by_latency
latency_floor cur status_code d err desired e = ground arith

-- A limit that the headers raised far enough above MaxHostRPS stays above it when it is halved.
pub halved_above_max :
    (cur d : ℕ) (err : Option Error)
    → 2 * max_host_rps < cur
    → new_rate_limit_by_latency cur 500 err d ≡ (true, cur / 2) × (max_host_rps ≤ cur / 2)
unfolding new_rate_limit_by_latency
halved_above_max cur d err h = (ground arith, omega arith)

-- A limit that the headers lead to is at least MinHostRPS, and a changed limit differs by whole
-- requests per second.
pub headers_bounds :
    (cur : ℕ) (hdr : Header) (desired : ℕ)
    → new_rate_limit_by_headers cur hdr ≡ (true, desired)
    → (min_host_rps ≤ desired) × (whole desired ≢ whole cur)
unfolding new_rate_limit_by_headers
headers_bounds cur hdr desired e = ground arith

-- Of two successful visits, the one that took longer leads to a limit that is no higher.
pub latency_antitone :
    (cur status_code d d' : ℕ)
    → status_code < 203
    → 0 < d
    → d ≤ d'
    → (new_rate_limit_by_latency cur status_code none d').1
      ≤ (new_rate_limit_by_latency cur status_code none d).1
unfolding new_rate_limit_by_latency
latency_antitone cur status_code d d' h p q = ground arith
