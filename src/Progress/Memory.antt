-- ===== src/Progress/Memory.antt =====
-- internal/progress/memory.go. Times count nanoseconds and do not run backwards between two updates
-- of a run; a confidence is kept as the fraction that the code divides out.
pub mod Laws
pub mod Watch
use tobey.Common.{
  ℕ, String, ◌+◌, ◌-◌, ◌*◌, ◌/◌, List, [], ◌∷◌, Bool, true, false, ◌&&◌, ◌||◌, not, Option, none,
  some, length, ltb, leb, if◌then◌else◌, ◌==◌, nat_eq, string_eq,
}
use tobey.Common.Dict.{lookup, insert}
use tobey.Progress.{
  Status, state_queued_for_crawling, state_crawling, state_crawled, state_succeeded, state_errored,
  state_cancelled, Update, Reporter,
}

pub record ProgressRunStats : Type 0 where
  pub first_seen : ℕ
  pub last_seen : ℕ

abbrev pub Updates : Type 0
Updates = List (String × Update)

-- `updated` is the number of notifications in the channel, which has room for 100.
pub record MemoryReporter : Type 0 where
  pub updates : List (String × Updates)
  pub stats : List (String × ProgressRunStats)
  pub updated : ℕ

unfoldable pub new_memory_reporter : MemoryReporter
new_memory_reporter = record { updates = []; stats = []; updated = 0 }

abbrev pub or_empty : Option Updates → Updates
or_empty none = []
or_empty (some us) = us

abbrev seen_at : ℕ → Option ProgressRunStats → ProgressRunStats
seen_at now none = record { first_seen = now; last_seen = now }
seen_at now (some s) = record s { last_seen = now }

unfoldable pub call : Update → MemoryReporter → MemoryReporter
unfolding lookup insert
call pu m = record {
  updates = insert pu.run_id (insert pu.url pu (or_empty (lookup pu.run_id m.updates))) m.updates;
  stats = insert pu.run_id (seen_at pu.created (lookup pu.run_id m.stats)) m.stats;
  updated = if ltb m.updated 100 then m.updated + 1 else m.updated;
}

unfoldable pub memory_reporter : Reporter MemoryReporter
unfolding call
memory_reporter = record { stage = "initial"; call = λ pu m. (call pu m, none) }

values : Updates → List Update
values [] = []
values ((url, pu) ∷ us) = pu ∷ values us

-- `none` is a nil slice.
unfoldable pub get_updates : String → MemoryReporter → Option (List Update)
unfolding lookup values
get_updates run_id m = elim (lookup run_id m.updates) [ none ↦ none | some us ↦ some (values us) ]

abbrev pub is_done : Status → Bool
is_done state_succeeded = true
is_done state_errored = true
is_done state_cancelled = true
is_done _ = false

-- How many of the updates are of a final status.
count_done : Updates → ℕ
count_done [] = 0
count_done ((url, pu) ∷ us) = (if is_done pu.status then 1 else 0) + count_done us

unfoldable pub compute_progress_counts : Updates → ℕ × ℕ
unfolding count_done
compute_progress_counts us = (length us, count_done us)

pub record Ratio : Type 0 where
  pub num : ℕ
  pub den : ℕ

abbrev pub no_confidence : Ratio
no_confidence = record { num = 0; den = 1 }

abbrev pub full_confidence : Ratio
full_confidence = record { num = 1; den = 1 }

-- (time.Duration).Milliseconds
abbrev pub milliseconds : ℕ → ℕ
milliseconds d = d / 1_000_000

-- ConfidenceLevelSafetyDistance
abbrev pub confidence_level_safety_distance : ℕ
confidence_level_safety_distance = 3

-- In milliseconds: three times the average time between two updates.
-- Times only move on here: where the code's clock reads less than the last time that the run was
-- seen, it has no confidence, and the difference is 0 here.
abbrev pub safety_duration : ℕ → ℕ → ℕ
safety_duration elapsed count = confidence_level_safety_distance * (elapsed / count)

unfoldable pub compute_progress_finished_confidence : ℕ → ℕ → ℕ → ℕ → ℕ → Ratio
compute_progress_finished_confidence now first_seen last_seen count done =
    let elapsed = milliseconds (last_seen - first_seen) in
    let delta = milliseconds (now - last_seen) in
    let safety = safety_duration elapsed count in
    if not (count == done) || done == 0
    then no_confidence
    else if elapsed == 0
    then no_confidence
    else if leb safety delta
    then full_confidence
    else record { num = delta; den = safety }

-- confidence >= 1.0
abbrev pub is_sure : Ratio → Bool
is_sure r = leb r.den r.num

abbrev verdict : ℕ → Option Updates → Option ProgressRunStats → Bool
verdict now none s = false
verdict now (some us) none = false
verdict now (some us) (some s) =
    let (count, done) = compute_progress_counts us in
    count == done
    && ltb 0 done
    && is_sure (compute_progress_finished_confidence now s.first_seen s.last_seen count done)

-- The closure `checkFinished` of `IsRunFinished`.
unfoldable pub check_finished : String → ℕ → MemoryReporter → Bool
unfolding lookup compute_progress_counts compute_progress_finished_confidence
check_finished run_id now m = verdict now (lookup run_id m.updates) (lookup run_id m.stats)
