-- ===== src/System/Visiting/Once.antt =====
-- What a crawl of a run publishes, from its start on.
use mathlib.Core.Option.{some-injective}
use tobey.Common.{
  ℕ, String, [], ◌∷◌, Option, none, some, false, ◌>>=◌, ◌⊎◌, ◌≡◌, ap, subst, >>=-eq-some,
}
use tobey.Failure.{Error}
use tobey.Run.{Run}
use tobey.Ctrlq.Job.{Carrier}
use tobey.Collector.{CollectorLib}
use tobey.Collector.Fetching.{FetchLib}
use tobey.Sitemaps.Drain.{Parsed, drain}
use tobey.Sitemaps.Drain.Keeps.{drain-Keeps}
use tobey.Visitor.{Response, Event, job, Worker, waits}
use tobey.System.{Libs, Tobey, parts}
use tobey.System.Enqueue.{enqueue}
use tobey.System.Visiting.{Wire, get_collector, crawler}
use tobey.System.Visiting.Laws.{LeavesRuns, Crawling}

module _ (x : Libs) (y : CollectorLib) (z : FetchLib) (wire : Wire (Tobey x))
    (collect : Run → Response → Tobey x → Tobey x) (run : Run) (carrier : Carrier)
    (leaves : LeavesRuns x y z wire collect run) where
  abbrev Crawled : Tobey x → Tobey x → Type 0
  Crawled = Crawling x y z wire collect run carrier leaves

  -- An event that is not a job of another run.
  abbrev pub IsMine : Event → Type 0
  IsMine (job j) = j.run ≡ run.id
  IsMine other = Unit

  -- What happens after Start, one thing after the other in any order: a drain hands a URL to the
  -- run's enqueue function, a worker deals with an event, or other goroutines take a turn, those
  -- that fetch sitemaps, the promoter, the consumers and the clock among them.
  pub data Goes (w : Tobey x) : Tobey x → Type 0 where
    begins : Goes w w
    hands :
        {v : Tobey x} (u : String) (v' : Tobey x)
        → enqueue x y (get_collector wire.max_redirects run) run carrier u v ≡ some v'
        → Goes w v
        → Goes w v'
    works :
        {v : Tobey x} (e : Event) (v' : Tobey x)
        → IsMine e
        → tobey.Visitor.run (parts (crawler x y z wire collect carrier)) (e ∷ []) v ≡ waits v'
        → Goes w v
        → Goes w v'
    others :
        {v : Tobey x} (v' : Tobey x)
        → v'.runs ≡ v.runs
        → v'.queue.next_id ≡ v.queue.next_id
        → Goes w v
        → Goes w v'

  -- A drain on its own is made of such turns.
  drain-Goes :
      (fetch : String → Tobey x → Tobey x × (Error ⊎ (ℕ × String)))
      (parse parse_index : String → Parsed) (depth : ℕ) (url : String) (w v v' : Tobey x)
      → ((u : String) (w1 : Tobey x)
          → ((fetch u w1).0.runs ≡ w1.runs) × ((fetch u w1).0.queue ≡ w1.queue))
      → drain
          (record {
            cancelled = λ w1. false;
            fetch = fetch;
            parse = parse;
            parse_index = parse_index;
            yieldu = λ u w1. (do
              w2 ← enqueue x y (get_collector wire.max_redirects run) run carrier u w1
              some (w2, none));
          })
          depth
          url
          v
        ≡ some v'
      → Goes w v
      → Goes w v'
  drain-Goes fetch parse parse_index depth url w v v' alone drained g =
      let c = get_collector wire.max_redirects run in
      drain-Keeps (Goes w) _
        (λ u v1 r called h.
          let (v2, put, over) = >>=-eq-some (enqueue x y c run carrier u v1) _ called in
          subst (λ (q : Tobey x × Option Error). Goes w q.0) (some-injective (v2, none) r over)
            (Goes.hands u v2 put h))
        (λ u v1 h. Goes.others _ (alone u v1).0 (ap (λ q. q.next_id) (alone u v1).1) h) depth url v
        v' drained g
