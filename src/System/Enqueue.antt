-- ===== src/System/Enqueue.antt =====
-- getEnqueueFn of run.go's GetCollector, over the world that the parts share, and the start of a run.
pub mod Laws
use tobey.Common.{
  ℕ, String, List, [], ◌∷◌, ◌++◌, Bool, true, false, Option, none, some, ◌>>=◌, is_some,
  if◌then◌else◌, ◌≡◌, ◌∙◌, refl, sym, ap, subst, ◌⊎◌, inl, inr, arith, Option-cases, Bool-cases,
  >>=-eq-some, ◌&&◌, ◌||◌, ◌==◌, string_eq, eq_refl, eq_iff,
}
use tobey.Common.Text.{has_suffix}
use tobey.Progress.{state_queued_for_crawling, with_url, update}
use tobey.Progress.Memory.{memory_reporter}
use tobey.Run.{Run}
use tobey.Store.{MemoryStore, has_seen_url, saw_url}
use tobey.Store.Laws.{has_seen_url-saw_url}
use tobey.Ctrlq.Job.{Carrier}
use tobey.Ctrlq.Memory.{publish}
use tobey.Collector.{Collector, CollectorLib, is_visit_allowed}
use tobey.System.{World, Libs, Tobey, report_in, keep}

unfoldable pub is_probably_sitemap : String → Bool
unfolding has_suffix
is_probably_sitemap url = has_suffix url "/sitemap.xml"

unfoldable pub is_probably_siteindex : String → Bool
unfolding has_suffix
is_probably_siteindex url = has_suffix url "/sitemap_index.xml"

module _ (x : Libs) (y : CollectorLib) where
  open x use {urls, rates}

  -- The run has marked the URL as seen.
  abbrev pub marked : Run → String → Tobey x → Tobey x
  marked run url w = record w { runs = record w.runs { store = saw_url run.id url w.runs.store } }

  abbrev pub is_seen : Run → String → Tobey x → Bool
  is_seen run url w = has_seen_url run.id url w.runs.store

  abbrev pub queued : Run → Carrier → String → Tobey x → Option (Tobey x)
  queued run carrier url w = do
    q ← publish urls rates w.now carrier run.id url w.queue
    let w1 : Tobey x = record w { queue = q }
    let w2 : Tobey x = marked run url w1
    some (record w2 {
      progress =
          (update memory_reporter (with_url memory_reporter run.id url) w.now
            state_queued_for_crawling w2.progress).0;
    })

  -- The queue of memory.go publishes or panics: its Publish has no error to return.
  unfoldable pub enqueue : Collector → Run → Carrier → String → Tobey x → Option (Tobey x)
  unfolding is_visit_allowed has_seen_url publish saw_url with_url update memory_reporter
  enqueue c run carrier url w =
      if is_some (is_visit_allowed urls y c url)
      then some w
      else if is_seen run url w
      then some w
      else queued run carrier url w

  -- One turn of the first loop of Start, with the URL that it hands to Drain, if it is probably a
  -- sitemap's. Drain starts a goroutine and returns.
  unfoldable pub step :
      Collector → Run → Carrier → String → Tobey x → Option (Tobey x × List String)
  unfolding is_probably_sitemap is_probably_siteindex enqueue
  step c run carrier u w =
      if is_probably_sitemap u || is_probably_siteindex u
      then some (w, u ∷ [])
      else do w1 ← enqueue c run carrier u w; some (w1, [])

  unfoldable pub start :
      Collector → Run → Carrier → List String → Tobey x → Option (Tobey x × List String)
  unfolding step
  start c run carrier [] w = some (w, [])
  start c run carrier (u ∷ us) w = do
    (w1, own) ← step c run carrier u w
    (w2, rest) ← start c run carrier us w1
    some (w2, own ++ rest)
