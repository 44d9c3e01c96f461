-- ===== src/Tests/Watching.antt =====
-- The wait for a run's end and the sitemaps at concrete inputs.
use tobey.Common.{
  ℕ, String, ◌+◌, ◌<◌, [], ◌∷◌, true, false, Option, none, some, ◌≡◌, refl, if◌then◌else◌,
  string_eq, inr, arith,
}
use tobey.Failure.{Error}
use tobey.Common.Dict.{lookup}
use tobey.Progress.{Update, state_succeeded}
use tobey.Progress.Memory.{MemoryReporter, ProgressRunStats}
use tobey.Progress.Memory.Watch.{is_run_finished, ticks, quiet_run_finishes}
use tobey.System.Enqueue.{is_probably_siteindex, is_probably_sitemap}
use tobey.Sitemaps.Drain.{DrainLib, resolve}
use tobey.Sitemaps.Drain.Ends.{resolve_ends, resolve_circles}

abbrev index : String
index = "http://a.org/sitemap_index.xml"

-- A site whose index names one sitemap.
abbrev site : DrainLib ℕ
site = record {
  cancelled = λ w. false;
  fetch = λ url w. (w + 1, inr (200, url));
  parse = λ body. ("http://a.org/" ∷ [], none);
  parse_index = λ body. ("http://a.org/sitemap.xml" ∷ [], none);
  yieldu = λ u w. some (w + 10, none);
}

-- A site whose index names itself.
abbrev circle : DrainLib ℕ
circle = record site {
  parse_index = λ body. (index ∷ [], none);
  fetch = λ url w. (w + 1, inr (200, "index"));
}

is_index : (is_probably_siteindex index ≡ true) × (is_probably_sitemap index ≡ false)
unfolding is_probably_siteindex is_probably_sitemap
is_index = (refl, refl)

abbrev rank : String → ℕ
rank url = if is_probably_siteindex url then 1 else 0

ranked :
    (url : String) (w : ℕ)
    → is_probably_siteindex url ≡ true
    → (rank "http://a.org/sitemap.xml" < rank url) × Unit {0}
unfolding is_probably_siteindex
ranked url w i = (rw i (omega arith), tt)

resolve_ends_example :
    (r : ℕ × Option Error) × ((depth : ℕ)
      → rank index < depth
      → resolve site depth index 0 ≡ some r)
resolve_ends_example = resolve_ends site (λ u w. refl) rank ranked index 0

resolve_circles_example : resolve circle 9 index 0 ≡ none
resolve_circles_example =
    resolve_circles circle index "index" [] is_index.0 is_index.1 (λ w. refl) (λ w. refl) refl 9 0

abbrev last : Update
last = record {
  run_id = "r";
  url = index;
  stage = "initial";
  status = state_succeeded;
  created = 4_000_000;
}

abbrev stats : ProgressRunStats
stats = record { first_seen = 0; last_seen = 4_000_000 }

abbrev run : String
run = "r"

abbrev reporter : MemoryReporter
reporter = record {
  updates = (run, (index, last) ∷ []) ∷ [];
  stats = (run, stats) ∷ [];
  updated = 4;
}

reported :
    (lookup run reporter.updates ≡ some ((index, last) ∷ []))
    × (lookup run reporter.stats ≡ some stats)
unfolding lookup
reported = (refl, refl)

quiet_run_finishes_example : is_run_finished run (ticks 1 5_000_000 reporter) ≡ true
quiet_run_finishes_example =
    quiet_run_finishes run 0 5_000_000 reporter ((index, last) ∷ []) stats reported.0 reported.1
      (refl, tt) (omega arith) (omega arith) (omega arith) (omega arith)

nothing_reported : lookup "s" reporter.updates ≡ none
unfolding lookup
nothing_reported = refl
