-- ===== src/Tests/Visits.antt =====
-- Visits, runs and the store at concrete inputs.
use tobey.Common.{
  ◌*◌, ◌/◌, ℕ, String, ◌≤◌, ◌<◌, ◌-◌, ◌≡◌, ◌⊎◌, ◌↔◌, refl, [], ◌∷◌, true, Option, none, some, arith,
  nat_eq, string_eq,
}
use tobey.Common.Dict.{lookup}
use tobey.Failure.{deadline_exceeded, http_status}
use tobey.Progress.{Update, state_succeeded}
use tobey.Progress.Memory.{MemoryReporter, Updates, check_finished, is_done, milliseconds}
use tobey.Progress.Memory.Laws.{last_update, AllDone, check_finished_iff}
use tobey.Run.{Run}
use tobey.Store.{create_store}
use tobey.RunManager.{RunManager, add_run, get_run, new_run_manager}
use tobey.Visitor.{
  Response, Fault, Effects, code_temporary, max_job_retries, handle_failed_visit, process,
}
use tobey.Visitor.Failed.{retryable, temporary_sound, temporary_complete}
use tobey.Ctrlq.Job.{VisitJob}
use tobey.Ctrlq.Memory.{
  new_memory_visit_work_queue, open_queue, republish, take_rate_limit_headers, take_sample,
}
use tobey.System.{Libs, Tobey, parts, process_settles, evicted_run_panics}
use tobey.Tests.Libs.{page, urls, rates, lru, get_or, run_named, parse}

abbrev job_of : String → ℕ → VisitJob
job_of id retries = record {
  message = record { id = 1; run = id; url = page; created = 0; retries = retries; carrier = [] };
  context = [];
}

abbrev answer : ℕ → Response
answer code = record { status_code = code; headers = []; url = page; body = ""; took = 5 }

-- A world of numbers: the sum of the pauses, and a thousand for each republication.
abbrev counting : Effects ℕ
counting = record {
  pause = λ url d w. some w;
  republish = λ job w. some (1000, none);
  parse_seconds = λ v. 0;
}

abbrev no_fault : Option Fault
no_fault = none

retried :
    handle_failed_visit counting (job_of "r" 2) (some (answer 503)) (http_status 503) 0
    ≡ some (1000, (code_temporary, none))
unfolding handle_failed_visit
retried = refl

temporary_sound_example :
    (retryable (some (answer 503)) (http_status 503) ≡ true)
    × ((w0 : ℕ) × ((2 < max_job_retries)
          × (no_fault ≡ none)
          × (counting.republish (job_of "r" 2) w0 ≡ some (1000, none))))
temporary_sound_example =
    temporary_sound counting (job_of "r" 2) (some (answer 503)) (http_status 503) 0 1000 none
      retried

temporary_complete_example :
    (w' : ℕ) × (handle_failed_visit counting (job_of "r" 2) none deadline_exceeded 0
      ≡ some (w', (code_temporary, none)))
temporary_complete_example =
    temporary_complete counting (job_of "r" 2) (λ url d w. w) (λ w. 1000) (λ url d w. refl)
      (λ w. refl) (omega arith) none deadline_exceeded 0 refl

-- A network on which every page answers well.
abbrev libs : Libs
libs = record {
  urls = urls;
  rates = rates;
  lru = lru;
  parse_seconds = λ v. 0;
  visit = λ r url w. some (w, some (answer 200), none);
}

abbrev start_world : Tobey libs
start_world = record {
  queue = open_queue new_memory_visit_work_queue;
  progress = record { updates = []; stats = []; updated = 0 };
  runs = (add_run lru (run_named "r") (new_run_manager lru)).0;
  now = 7;
}

abbrev end_world : Tobey libs
end_world = (get_or (start_world, none) (process (parts libs) (job_of "r" 0) start_world)).0

processed : process (parts libs) (job_of "r" 0) start_world ≡ some (end_world, none)
unfolding process parts add_run new_run_manager open_queue new_memory_visit_work_queue parse get_run
    take_rate_limit_headers take_sample
processed = refl

process_settles_example :
    ((u : Update) × (last_update "r" page end_world.progress ≡ some u) × (is_done u.status ≡ true))
    ⊎ ((w0 : Tobey libs) × (republish urls rates (job_of "r" 0) w0.queue ≡ some end_world.queue))
process_settles_example = process_settles libs (job_of "r" 0) start_world end_world none processed

abbrev manager : RunManager (Option Run)
manager = record { entries = some (run_named "old"); store = create_store }

abbrev old_world : Tobey libs
old_world = record start_world { runs = manager }

evicted_run_panics_example :
    process
      (parts libs)
      (job_of "old" 0)
      (record old_world { runs = (add_run lru (run_named "new") manager).0 })
    ≡ none
evicted_run_panics_example =
    evicted_run_panics libs (job_of "old" 0) (run_named "new") (run_named "old") old_world refl refl

abbrev key : String
key = "r"

abbrev other_key : String
other_key = "s"

abbrev last : Update
last = record {
  run_id = "r";
  url = page;
  stage = "initial";
  status = state_succeeded;
  created = 4_000_000;
}

abbrev updates : Updates
updates = (page, last) ∷ []

abbrev reporter : MemoryReporter
reporter = record {
  updates = (key, updates) ∷ [];
  stats = (key, record { first_seen = 0; last_seen = 4_000_000 }) ∷ [];
  updated = 4_000_000;
}

found :
    (lookup key reporter.updates ≡ some updates)
    × (lookup key reporter.stats ≡ some record { first_seen = 0; last_seen = 4_000_000 })
unfolding lookup
found = (refl, refl)

check_finished_iff_example : (check_finished key 40_000_000 reporter ≡ true) ↔ (
    AllDone updates
    × (0 < 1)
    × (0 < milliseconds (4_000_000 - 0))
    × (3 * (milliseconds (4_000_000 - 0) / 1) ≤ milliseconds (40_000_000 - 4_000_000)))
check_finished_iff_example =
    check_finished_iff key 40_000_000 reporter updates
      (record { first_seen = 0; last_seen = 4_000_000 }) found.0 found.1
