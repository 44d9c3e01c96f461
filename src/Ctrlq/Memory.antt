-- ===== src/Ctrlq/Memory.antt =====
-- internal/ctrlq/memory.go. `none` is a panic. The global counters `memoryWorkQueueNextID` and
-- `next` (of promoter.go) are fields, and so is the place where the promoter's goroutine stands.
pub mod Invariant
pub mod Calls
pub mod Delivery
pub mod Numbers
use tobey.Common.{
  ℕ, String, ◌+◌, ◌%◌, ◌^◌, List, [], ◌∷◌, map, Bool, true, false, not, Option, none, some, ◌>>=◌,
  if◌then◌else◌, nat_eq,
}
use tobey.Common.Dict.{lookup, insert}
use tobey.Chan.{Chan, make, close, try_send, Sent, sent, full, send_panics}
use tobey.Failure.{Error}
use tobey.Headers.{Header}
use tobey.Url.{Url, UrlLib, hostname}
use tobey.Ctrlq.Job.{Carrier, VisitMessage, VisitJob}
use tobey.Ctrlq.Hosts.{guess_host, queue_name}
use tobey.Ctrlq.Limiter.{RateLib, new_memory_limiter, get_limit, set_limit_to}
use tobey.Ctrlq.Controlled.{ControlledQueue, pause}
use tobey.Ctrlq.Optimizer.{new_rate_limit_by_headers, new_rate_limit_by_latency}

-- Where `promoteLoop` stands: on its way through a round, in its `select` for so many nanoseconds,
-- or past its end.
pub data Promoter : Type 0 where
  calculating : Promoter
  waiting : ℕ → Promoter
  stopped : Promoter

-- MemoryWorkQueueBufferSize
abbrev pub memory_work_queue_buffer_size : ℕ
memory_work_queue_buffer_size = 1_000_000

pub record MemoryVisitWorkQueue (L : Type 0) : Type 0 where
  pub dqueue : Chan (Option VisitMessage)
  pub hqueues : List (ℕ × ControlledQueue L)
  pub promoter : Promoter
  pub next_id : ℕ
  pub next : ℕ

unfoldable pub new_memory_visit_work_queue : {L : Type 0} → MemoryVisitWorkQueue L
new_memory_visit_work_queue = record {
  dqueue = make memory_work_queue_buffer_size;
  hqueues = [];
  promoter = stopped;
  next_id = 0;
  next = 0;
}

-- `Open` starts the promoter.
unfoldable pub open_queue : {L : Type 0} → MemoryVisitWorkQueue L → MemoryVisitWorkQueue L
open_queue wq = record wq { promoter = calculating }

-- `shouldRecalc` has no buffer: the send goes through if the promoter stands in its `select`.
abbrev pub woken : Promoter → Promoter
woken (waiting delay) = calculating
woken calculating = calculating
woken stopped = stopped

unfoldable pub trigger_recalc : {L : Type 0} → MemoryVisitWorkQueue L → MemoryVisitWorkQueue L
trigger_recalc wq = record wq { promoter = woken wq.promoter }

abbrev pub close_queue : {L : Type 0} → ControlledQueue L → ControlledQueue L
close_queue hq = record hq { queue = close hq.queue }

abbrev close_queues : {L : Type 0} → List (ℕ × ControlledQueue L) → List (ℕ × ControlledQueue L)
close_queues [] = []
close_queues ((k, hq) ∷ m) = (k, close_queue hq) ∷ close_queues m

unfoldable pub close_all : {L : Type 0} → MemoryVisitWorkQueue L → MemoryVisitWorkQueue L
close_all wq = record wq { dqueue = close wq.dqueue; hqueues = close_queues wq.hqueues }

abbrev pub put_queue :
    {L : Type 0} → ℕ → ControlledQueue L → MemoryVisitWorkQueue L → MemoryVisitWorkQueue L
put_queue key hq wq = record wq { hqueues = insert key hq wq.hqueues }

abbrev pub next_message_id : {L : Type 0} → MemoryVisitWorkQueue L → ℕ
next_message_id wq = (wq.next_id + 1) % 2 ^ 32

abbrev pub count_id : {L : Type 0} → MemoryVisitWorkQueue L → MemoryVisitWorkQueue L
count_id wq = record wq { next_id = next_message_id wq }

abbrev pub new_message :
    {L : Type 0} → ℕ → Carrier → String → String → MemoryVisitWorkQueue L → VisitMessage
new_message now carrier run url wq = record {
  id = next_message_id wq;
  run = run;
  url = url;
  created = now;
  retries = 0;
  carrier = carrier;
}

abbrev pub retried_message : {L : Type 0} → VisitJob → MemoryVisitWorkQueue L → VisitMessage
retried_message job wq = record {
  id = next_message_id wq;
  run = job.run;
  url = job.url;
  created = job.created;
  retries = (job.retries + 1) % 2 ^ 32;
  carrier = job.context;
}

module _ (urls : UrlLib) (x : RateLib) where
  open x use {Bucket}

  -- The queue that `lazyHostQueue` makes for a host.
  unfoldable pub fresh_queue : ℕ → Url → ControlledQueue Bucket
  unfolding queue_name hostname
  fresh_queue key p = record {
    id = key;
    name = queue_name (hostname p);
    queue = make memory_work_queue_buffer_size;
    limiter = new_memory_limiter x;
    paused_until = 0;
    is_adaptive = true;
  }

  -- The queue of the host, stored before if it is new. For a URL that does not parse the code reads
  -- the name of a nil URL, unless a queue for that key is there. The code's Load and Store are one
  -- step here: that two goroutines each make a queue for a host, and one is lost, is not represented.
  unfoldable pub lazy_host_queue :
      String
      → MemoryVisitWorkQueue Bucket
      → Option (MemoryVisitWorkQueue Bucket × ControlledQueue Bucket)
  unfolding lookup insert guess_host fresh_queue
  lazy_host_queue u wq =
      let key = guess_host urls u in
      elim (lookup key wq.hqueues) [
        | some hq ↦ some (wq, hq)
        | none ↦ elim (urls.parse u) [
          | none ↦ none
          | some p ↦ some (put_queue key (fresh_queue key p) wq, fresh_queue key p)
        ]
      ]

  -- The send that `Publish` and `Republish` end with: a full queue drops the message.
  unfoldable pub enqueue :
      ℕ
      → ControlledQueue Bucket
      → VisitMessage
      → MemoryVisitWorkQueue Bucket
      → Option (MemoryVisitWorkQueue Bucket)
  unfolding try_send insert
  enqueue key hq msg wq = elim (try_send hq.queue (some msg)) [
    | sent c ↦ some (put_queue key (record hq { queue = c }) wq)
    | full ↦ some wq
    | send_panics ↦ none
  ]

  unfoldable pub publish :
      ℕ
      → Carrier
      → String
      → String
      → MemoryVisitWorkQueue Bucket
      → Option (MemoryVisitWorkQueue Bucket)
  publish now carrier run url wq = do
    (wq1, hq) ← lazy_host_queue url wq
    wq2 ← enqueue (guess_host urls url) hq (new_message now carrier run url wq) (count_id wq1)
    some (trigger_recalc wq2)

  -- As for `publish`, an outcome also stands for a message that a full queue dropped.
  unfoldable pub republish :
      VisitJob → MemoryVisitWorkQueue Bucket → Option (MemoryVisitWorkQueue Bucket)
  republish job wq = do
    (wq1, hq) ← lazy_host_queue job.url wq
    wq2 ← enqueue (guess_host urls job.url) hq (retried_message job wq) (count_id wq1)
    some (trigger_recalc wq2)

  unfoldable pub pause_host :
      ℕ → String → ℕ → MemoryVisitWorkQueue Bucket → Option (MemoryVisitWorkQueue Bucket)
  unfolding lazy_host_queue pause insert
  pause_host now url d wq = do
    (wq1, hq) ← lazy_host_queue url wq
    some (put_queue (guess_host urls url) (pause hq now d).0 wq1)

  -- What both samplers do with the optimizer's answer.
  unfoldable pub tune :
      ℕ
      → ControlledQueue Bucket
      → Bool × ℕ
      → MemoryVisitWorkQueue Bucket
      → MemoryVisitWorkQueue Bucket
  unfolding insert set_limit_to
  tune key hq (changed, desired) wq =
      if not changed
      then wq
      else put_queue key (record hq { limiter = set_limit_to x hq.limiter desired }) wq

  unfoldable pub take_rate_limit_headers :
      String → Header → MemoryVisitWorkQueue Bucket → Option (MemoryVisitWorkQueue Bucket)
  unfolding lazy_host_queue tune get_limit new_rate_limit_by_headers
  take_rate_limit_headers url hdr wq = do
    (wq1, hq) ← lazy_host_queue url wq
    if not hq.is_adaptive
        then some wq1
        else some (
            tune (guess_host urls url) hq (new_rate_limit_by_headers (get_limit x hq.limiter) hdr)
              wq1)

  unfoldable pub take_sample :
      String
      → ℕ
      → Option Error
      → ℕ
      → MemoryVisitWorkQueue Bucket
      → Option (MemoryVisitWorkQueue Bucket)
  unfolding lazy_host_queue tune get_limit new_rate_limit_by_latency
  take_sample url status_code err d wq = do
    (wq1, hq) ← lazy_host_queue url wq
    let answer = new_rate_limit_by_latency (get_limit x hq.limiter) status_code err d
    if not hq.is_adaptive then some wq1 else some (tune (guess_host urls url) hq answer wq1)
