-- ===== src/Tests/Arrival.antt =====
-- The way of a message to a worker at concrete inputs.
use tobey.Common.{ℕ, String, List, [], ◌∷◌, true, false, Option, none, some, ◌≡◌, ◌<◌, refl, arith}
use tobey.Chan.{make}
use tobey.Ctrlq.Job.{VisitMessage}
use tobey.Ctrlq.Hosts.{guess_host}
use tobey.Ctrlq.Controlled.{ControlledQueue, second}
use tobey.Ctrlq.Limiter.{min_host_rps}
use tobey.Ctrlq.Memory.{MemoryVisitWorkQueue, calculating, publish, lazy_host_queue, enqueue}
use tobey.Ctrlq.Promoter.{scan, settle}
use tobey.Ctrlq.History.{handed, consume}
use tobey.Ctrlq.Arrival.{IsIdle, IsEmptied, publish_arrives, publish_lost}
use tobey.Tests.Libs.{page, urls, rates, Bucket, get_or, parse}

abbrev idle_host : ControlledQueue Bucket
idle_host = record {
  id = 1;
  name = "a";
  queue = make 2;
  limiter = record { bucket = (min_host_rps, 0); has_reservation = true };
  paused_until = 0;
  is_adaptive = true;
}

abbrev with_default : List (Option VisitMessage) → MemoryVisitWorkQueue Bucket
with_default buffer = record {
  dqueue = record { buffer = buffer; cap = 1; closed = false };
  hqueues = (guess_host urls page, idle_host) ∷ [];
  promoter = calculating;
  next_id = 41;
  next = 0;
}

is_idle :
    (buffer : List (Option VisitMessage))
    → IsIdle urls rates (guess_host urls page) (with_default buffer)
unfolding guess_host parse tobey.Common.Dict.lookup
is_idle buffer = record {
  hq = idle_host;
  there = refl;
  opened = refl;
  empty = refl;
  room = omega arith;
}

abbrev sent_to : List (Option VisitMessage) → MemoryVisitWorkQueue Bucket
sent_to buffer =
    get_or (with_default buffer) (publish urls rates 5 [] "s" page (with_default buffer))

sends :
    (buffer : List (Option VisitMessage))
    → publish urls rates 5 [] "s" page (with_default buffer) ≡ some (sent_to buffer)
unfolding publish lazy_host_queue enqueue parse guess_host
sends buffer = refl

only_host :
    (buffer : List (Option VisitMessage))
    → (scan rates second (sent_to buffer)).0.immediate ≡ guess_host urls page ∷ []
unfolding scan publish lazy_host_queue enqueue parse guess_host tobey.Ctrlq.Memory.trigger_recalc
only_host buffer = refl

abbrev old : VisitMessage
old = record { id = 7; run = "r"; url = page; created = 1; retries = 0; carrier = [] }

publish_arrives_example :
    (wq2 : MemoryVisitWorkQueue Bucket) × (wq3 : MemoryVisitWorkQueue Bucket) × (settle rates second
        false
        (scan rates second (sent_to [])).0
        (scan rates second (sent_to [])).1
      ≡ some wq2)
    × (consume false wq2
        ≡ handed
            record {
              message = record {
                id = 42;
                run = "s";
                url = page;
                created = 5;
                retries = 0;
                carrier = [];
              };
              context = [];
            }
            wq3)
publish_arrives_example =
    publish_arrives urls rates 5 second [] "s" page (with_default []) (sent_to []) (is_idle [])
      (sends []) (only_host []) refl refl (omega arith)

publish_lost_example :
    (wq2 : MemoryVisitWorkQueue Bucket) × (settle rates second false
        (scan rates second (sent_to (some old ∷ []))).0
        (scan rates second (sent_to (some old ∷ []))).1
      ≡ some wq2)
    × (wq2.dqueue ≡ (with_default (some old ∷ [])).dqueue)
    × IsEmptied urls rates (guess_host urls page) wq2
publish_lost_example =
    publish_lost urls rates 5 second [] "s" page (with_default (some old ∷ []))
      (sent_to (some old ∷ [])) (is_idle (some old ∷ [])) (sends (some old ∷ []))
      (only_host (some old ∷ [])) refl (omega arith)
