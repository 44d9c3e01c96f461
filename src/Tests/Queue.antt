-- ===== src/Tests/Queue.antt =====
-- The work queue, its promoter and its limits at concrete inputs.
use mathlib.Core.List.{Memᴰ}
use tobey.Common.{
  ℕ, ◌*◌, ◌≤◌, ◌≡◌, refl, List, [], ◌∷◌, Bool, true, false, Option, none, some, arith, nat_eq,
}
use tobey.Common.Dict.{lookup}
use tobey.Chan.{make}
use tobey.Ctrlq.Job.{VisitMessage, VisitJob}
use tobey.Ctrlq.Hosts.{guess_host}
use tobey.Ctrlq.Limiter.{max_host_rps, min_host_rps, holds_reservation}
use tobey.Ctrlq.Controlled.{ControlledQueue, second}
use tobey.Ctrlq.Optimizer.{new_rate_limit_by_latency}
use tobey.Ctrlq.Optimizer.Bounds.{latency_bounds}
use tobey.Ctrlq.Memory.{
  MemoryVisitWorkQueue, calculating, new_memory_visit_work_queue, open_queue, publish, republish,
  lazy_host_queue, enqueue,
}
use tobey.Ctrlq.Memory.Invariant.{Inv}
use tobey.Ctrlq.Memory.Delivery.{Delivered, publish_appends, republish_appends}
use tobey.Ctrlq.Promoter.{check_queue, candidates, paused, scan, settle, Candidates}
use tobey.Ctrlq.Promoter.Scanning.{IsReady, candidates-IsReady}
use tobey.Ctrlq.Promoter.Rounds.{settle_wraps}
use tobey.Ctrlq.Wakeups.{IsShortDelay}
use tobey.Ctrlq.History.{here, next, published, Reach-Inv}
use tobey.Tests.Libs.{page, urls, rates, Bucket, get_or, parse}

abbrev message : VisitMessage
message = record { id = 7; run = "r"; url = page; created = 1; retries = 0; carrier = [] }

abbrev job : VisitJob
job = record { message = message; context = [] }

abbrev fresh : MemoryVisitWorkQueue Bucket
fresh = open_queue new_memory_visit_work_queue

abbrev once_published : MemoryVisitWorkQueue Bucket
once_published = get_or fresh (publish urls rates 5 [] "r" page fresh)

first_publish : publish urls rates 5 [] "r" page fresh ≡ some once_published
unfolding publish open_queue new_memory_visit_work_queue lazy_host_queue enqueue parse
first_publish = refl

Reach-Inv_example : Inv urls rates once_published
Reach-Inv_example =
    Reach-Inv urls rates once_published (next here (published 5 [] "r" page first_publish))

abbrev host_queue : List (Option VisitMessage) → Bucket → Bool → ℕ → ControlledQueue Bucket
host_queue buffer bucket reserved until = record {
  id = 1;
  name = "a";
  queue = record { buffer = buffer; cap = 2; closed = false };
  limiter = record { bucket = bucket; has_reservation = reserved };
  paused_until = until;
  is_adaptive = true;
}

abbrev one_message : ControlledQueue Bucket
one_message = host_queue (some message ∷ []) (min_host_rps, 0) true 0

abbrev with_host : ControlledQueue Bucket → MemoryVisitWorkQueue Bucket
with_host hq = record {
  dqueue = make 2;
  hqueues = (guess_host urls page, hq) ∷ [];
  promoter = calculating;
  next_id = 41;
  next = 0;
}

known :
    (hq : ControlledQueue Bucket) → lookup (guess_host urls page) (with_host hq).hqueues ≡ some hq
unfolding lookup guess_host parse
known hq = refl

publish_appends_example :
    (wq' : MemoryVisitWorkQueue Bucket) × (publish urls rates 5 [] "s" page (with_host one_message)
      ≡ some wq')
    × Delivered urls rates
        (guess_host urls page)
        one_message
        record { id = 42; run = "s"; url = page; created = 5; retries = 0; carrier = [] }
        (with_host one_message)
        wq'
publish_appends_example =
    publish_appends urls rates 5 [] "s" page (with_host one_message) one_message (known one_message)
      refl (omega arith)

republish_appends_example :
    (wq' : MemoryVisitWorkQueue Bucket) × (republish urls rates job (with_host one_message)
      ≡ some wq')
    × Delivered urls rates
        (guess_host urls page)
        one_message
        record { id = 42; run = "r"; url = page; created = 1; retries = 1; carrier = [] }
        (with_host one_message)
        wq'
republish_appends_example =
    republish_appends urls rates job (with_host one_message) one_message (known one_message) refl
      (omega arith)

abbrev hosts : List (ℕ × ControlledQueue Bucket)
hosts = (3, one_message) ∷ (4, host_queue (some message ∷ []) (min_host_rps, 0) false 9) ∷ []

first_ready : Memᴰ 3 (candidates rates second hosts).immediate
unfolding candidates
first_ready = Memᴰ.head refl

candidates-IsReady_example :
    (hq : ControlledQueue Bucket) × Memᴰ (3, hq) (candidates rates second hosts).hqueues
    × IsReady rates second hq
candidates-IsReady_example = candidates-IsReady rates second hosts 3 first_ready

second_paused :
    (check_queue rates second (host_queue (some message ∷ []) (min_host_rps, 0) false 9)).1
    ≡ paused 9
unfolding check_queue
second_paused = refl

abbrev two_found : Candidates Bucket
two_found = record { immediate = 3 ∷ 4 ∷ []; shortest_pause_until = none; hqueues = hosts }

abbrev wrapping : MemoryVisitWorkQueue Bucket
wrapping = record {
  dqueue = make 2;
  hqueues = hosts;
  promoter = calculating;
  next_id = 0;
  next = 4294967295;
}

settle_wraps_example : settle rates 0 false two_found wrapping ≡ none
settle_wraps_example = settle_wraps rates 0 false two_found wrapping (omega arith) (omega arith)

abbrev after_publish : MemoryVisitWorkQueue Bucket
after_publish = get_or fresh (publish urls rates 5 [] "r" page (scan rates 5 fresh).1)

missed_publish : publish urls rates 5 [] "r" page (scan rates 5 fresh).1 ≡ some after_publish
unfolding publish open_queue new_memory_visit_work_queue lazy_host_queue enqueue parse scan
missed_publish = refl

nothing_found : (fresh.promoter ≡ calculating) × ((scan rates 5 fresh).0.immediate ≡ [])
unfolding scan open_queue new_memory_visit_work_queue
nothing_found = (refl, refl)

abbrev limited : ControlledQueue Bucket
limited = host_queue (some message ∷ []) (min_host_rps, 1_500_000_000) false 0

is_short : IsShortDelay urls rates second limited
unfolding holds_reservation
is_short = record {
  busy = omega arith;
  awake = omega arith;
  free = refl;
  granted = refl;
  late = omega arith;
  soon = refl;
}

sampled : new_rate_limit_by_latency (4 * min_host_rps) 500 none 5 ≡ (true, 2 * min_host_rps)
unfolding new_rate_limit_by_latency
sampled = refl

latency_bounds_example : (min_host_rps ≤ 2 * min_host_rps) × (2 * min_host_rps ≤ max_host_rps)
latency_bounds_example =
    latency_bounds (4 * min_host_rps) 500 5 none (2 * min_host_rps) (omega arith) sampled
