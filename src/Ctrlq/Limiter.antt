-- ===== src/Ctrlq/Limiter.antt =====
-- internal/ctrlq/limiter.go and limiter_memory.go. The token bucket of golang.org/x/time/rate is a
-- parameter. Rates count billionths of a request per second, times and delays nanoseconds.
use tobey.Common.{ℕ, ◌≡◌, Bool, true, false, if◌then◌else◌}

-- What ReserveN answers: Reservation.OK and Reservation.Delay, and the bucket afterwards.
pub record Reservation (L : Type 0) : Type 0 where
  pub granted : Bool
  pub delay : ℕ
  pub rest : L

-- Limits are set and read back, and taking a token does not change them.
pub record RateLib : Type 1 where
  pub Bucket : Type 0
  pub new_limiter : ℕ → Bucket
  pub limit : Bucket → ℕ
  pub set_limit : Bucket → ℕ → Bucket
  pub reserve_n : Bucket → ℕ → Reservation Bucket
  pub limit-new_limiter : (r : ℕ) → limit (new_limiter r) ≡ r
  pub limit-set_limit : (b : Bucket) (r : ℕ) → limit (set_limit b r) ≡ r
  pub limit-reserve_n : (b : Bucket) (now : ℕ) → limit (reserve_n b now).rest ≡ limit b

pub record MemoryLimiter (L : Type 0) : Type 0 where
  pub bucket : L
  pub has_reservation : Bool

-- MinHostRPS and MaxHostRPS of optimizer.go.
abbrev pub min_host_rps : ℕ
min_host_rps = 1_000_000_000

abbrev pub max_host_rps : ℕ
max_host_rps = 50_000_000_000

module _ (x : RateLib) where
  open x use {Bucket, limit, set_limit, reserve_n}

  unfoldable pub new_memory_limiter : MemoryLimiter Bucket
  new_memory_limiter = record { bucket = x.new_limiter min_host_rps; has_reservation = false }

  unfoldable pub get_limit : MemoryLimiter Bucket → ℕ
  get_limit l = limit l.bucket

  unfoldable pub set_limit_to : MemoryLimiter Bucket → ℕ → MemoryLimiter Bucket
  set_limit_to l r = record l { bucket = set_limit l.bucket r }

  -- The results of `Reserve`, and the limiter afterwards.
  unfoldable pub reserve : MemoryLimiter Bucket → ℕ → Reservation (MemoryLimiter Bucket)
  reserve l now =
      let r = reserve_n l.bucket now in
      record {
        granted = r.granted;
        delay = r.delay;
        rest = record {
          bucket = r.rest;
          has_reservation = if r.granted then true else l.has_reservation;
        };
      }

unfoldable pub holds_reservation : {L : Type 0} → MemoryLimiter L → Bool
holds_reservation l = l.has_reservation

unfoldable pub release_reservation : {L : Type 0} → MemoryLimiter L → MemoryLimiter L
release_reservation l = record l { has_reservation = false }
