-- ===== src/System/Crawl.antt =====
-- (*Run).Start as a whole. The sitemaps that it hands to Drain are part of the outcome, since Drain
-- fetches them in goroutines, after Start has returned as well. (*Robots).Sitemaps is a parameter.
use mathlib.Core.List.{Memᴰ}
use mathlib.Core.Option.{some-injective}
use tobey.Common.{
  String, List, [], ◌∷◌, ◌++◌, true, false, Option, none, some, ◌>>=◌, ◌≡◌, sym, ap, ◌∙◌, subst,
  >>=-eq-some,
}
use tobey.Run.{Run}
use tobey.Store.{has_seen_url}
use tobey.Ctrlq.Job.{Carrier}
use tobey.Collector.{Collector, CollectorLib, is_visit_allowed}
use tobey.System.{Libs, Tobey}
use tobey.System.Enqueue.{start, is_seen}
use tobey.System.Enqueue.Laws.{start_covers, is_for_sitemaps}
use tobey.Sitemaps.{discover, collect_sitemaps}

module _ (x : Libs) (y : CollectorLib) where
  open x use {urls}

  -- (*Robots).Sitemaps: `none` is a panic, and `none` inside its error.
  abbrev pub Ask : Type 0
  Ask = String → Tobey x → Option (Tobey x × Option (List String))

  -- (*Run).Start, with the URLs that it hands to Drain, in order.
  unfoldable pub start_run :
      Ask → Collector → Run → Carrier → List String → Tobey x → Option (Tobey x × List String)
  unfolding start discover
  start_run ask c run carrier us w = do
    (w1, given) ← start x y c run carrier us w
    (w2, found) ← discover urls ask us w1
    some (w2, given ++ found)

  -- Asking leaves the stored runs alone, and the queue.
  pub record LeavesAlone (ask : Ask) : Type 0 where
    pub ask-runs :
        (b : String) (w w' : Tobey x) (a : Option (List String))
        → ask b w ≡ some (w', a)
        → w'.runs ≡ w.runs
    pub ask-queue :
        (b : String) (w w' : Tobey x) (a : Option (List String))
        → ask b w ≡ some (w', a)
        → w'.queue ≡ w.queue

  module _ (ask : Ask) (leaves : LeavesAlone ask) where
    open leaves use {ask-runs, ask-queue}

    abbrev SameParts : Tobey x → Tobey x → Type 0
    SameParts w w' = (w'.runs ≡ w.runs) × (w'.queue ≡ w.queue)

    collect_sitemaps-SameParts :
        (bases : List String) (w w' : Tobey x) (found : List String)
        → collect_sitemaps urls ask bases w ≡ some (w', found)
        → SameParts w w'
    unfolding collect_sitemaps
    collect_sitemaps-SameParts [] w w' found e =
        let same = sym (some-injective (w, []) (w', found) e) in
        (ap (λ p. p.0.runs) same, ap (λ p. p.0.queue) same)
    collect_sitemaps-SameParts (base ∷ bases) w w' found e =
        let ((w1, answer), asked, rest) = >>=-eq-some (ask base w) _ e in
        let ((w2, more), collected, over) =
          >>=-eq-some (collect_sitemaps urls ask bases w1) _ rest in
        let same = sym (some-injective _ (w', found) over) in
        let (runs, queue) = collect_sitemaps-SameParts bases w1 w2 more collected in
        (
          ap (λ p. p.0.runs) same ∙ runs ∙ ask-runs base w w1 answer asked,
          ap (λ p. p.0.queue) same ∙ queue ∙ ask-queue base w w1 answer asked,
        )

    pub discover-SameParts :
        (us : List String) (w w' : Tobey x) (found : List String)
        → discover urls ask us w ≡ some (w', found)
        → SameParts w w'
    unfolding discover
    discover-SameParts us w w' found e = collect_sitemaps-SameParts _ w w' found e

    -- When Start returns, each of the URLs that it was given that is not probably a sitemap and whose
    -- visit is allowed is marked as seen, whatever sitemaps are found, if asking for them touches
    -- neither the stored runs nor the queue.
    pub start_run_covers :
        (c : Collector) (run : Run) (carrier : Carrier) (us : List String) (u : String)
        (w w' : Tobey x) (drained : List String)
        → start_run ask c run carrier us w ≡ some (w', drained)
        → Memᴰ u us
        → is_for_sitemaps x y u ≡ false
        → is_visit_allowed urls y c u ≡ none
        → is_seen x y run u w' ≡ true
    unfolding start_run
    start_run_covers c run carrier us u w w' drained e there ours allowed =
        let ((w1, given), first, rest) = >>=-eq-some (start x y c run carrier us w) _ e in
        let ((w2, found), asked, over) = >>=-eq-some (discover urls ask us w1) _ rest in
        subst (λ (r : Tobey x × List String). is_seen x y run u r.0 ≡ true)
          (some-injective (w2, given ++ found) (w', drained) over)
          (ap (λ rs. has_seen_url run.id u rs.store) (discover-SameParts us w1 w2 found asked).0
            ∙ start_covers x y c run carrier us u w w1 given first there ours allowed)
