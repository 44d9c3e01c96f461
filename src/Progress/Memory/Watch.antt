-- ===== src/Progress/Memory/Watch.antt =====
-- The goroutine of IsRunFinished: it checks a run whenever an update is noticed or its ticker fires,
-- until a check succeeds.
use tobey.Common.{
  ℕ, String, zero, suc, ◌+◌, ◌-◌, ◌*◌, ◌≤◌, ◌<◌, ◌≡◌, List, [], ◌∷◌, Bool, true, false, some,
  length, arith, if◌then◌else◌, subst, Bool-cases, inl, inr, string_eq,
}
use tobey.Common.Dict.{lookup}
use tobey.Progress.Memory.{
  MemoryReporter, ProgressRunStats, Updates, check_finished, milliseconds, safety_duration,
}
use tobey.Progress.Memory.Laws.{AllDone, check_finished_iff}

-- The time of a wake-up, and the reporter as it is then.
abbrev pub Wake : Type 0
Wake = ℕ × MemoryReporter

-- Whether the channel has got its answer after some wake-ups.
unfoldable pub is_run_finished : String → List Wake → Bool
unfolding check_finished
is_run_finished run [] = false
is_run_finished run ((now, m) ∷ ws) =
    let rest = is_run_finished run ws in if check_finished run now m then true else rest

-- Half a second.
abbrev pub tick : ℕ
tick = 500_000_000

-- The wake-ups while nothing is reported: n firings of the ticker.
abbrev pub ticks : ℕ → ℕ → MemoryReporter → List Wake
ticks zero now m = []
ticks (suc n) now m = (now + tick, m) ∷ ticks n (now + tick) m

waited :
    (n now last safety : ℕ)
    → last ≤ now
    → safety ≤ 500 * n
    → safety ≤ milliseconds ((now + tick * n) - last)
waited n now last safety h e = omega arith

at_time :
    (run : String) (t t' : ℕ) (m : MemoryReporter)
    → t ≡ t'
    → check_finished run t m ≡ true
    → check_finished run t' m ≡ true
at_time run t t' m e h = subst (λ u. check_finished run u m ≡ true) e h

last_tick :
    (run : String) (n now : ℕ) (m : MemoryReporter)
    → check_finished run (now + tick * suc n) m ≡ true
    → is_run_finished run (ticks (suc n) now m) ≡ true
unfolding is_run_finished
last_tick run zero now m e = rw (at_time run _ (now + tick) m (omega arith) e)
last_tick run (suc n) now m e = elim (Bool-cases (check_finished run (now + tick) m)) [
  | inl yet ↦ rw yet
  | inr not_yet ↦ rw not_yet (last_tick run n (now + tick) m (at_time run _ _ m (omega arith) e))
]

-- Once every URL of a run is in a final state, and its updates span a millisecond or more, the run is
-- reported as finished by a ticker that is left alone: after n firings, if half a second times n is at
-- least the safety duration.
pub quiet_run_finishes :
    (run : String) (n now : ℕ) (m : MemoryReporter) (us : Updates) (s : ProgressRunStats)
    → lookup run m.updates ≡ some us
    → lookup run m.stats ≡ some s
    → AllDone us
    → 0 < length us
    → 0 < milliseconds (s.last_seen - s.first_seen)
    → s.last_seen ≤ now
    → safety_duration (milliseconds (s.last_seen - s.first_seen)) (length us) ≤ 500 * suc n
    → is_run_finished run (ticks (suc n) now m) ≡ true
quiet_run_finishes run n now m us s known timed done some_url span later enough =
    last_tick run n now m (
      (check_finished_iff run (now + tick * suc n) m us s known timed).1
        (done, some_url, span, waited (suc n) now s.last_seen _ later enough))
