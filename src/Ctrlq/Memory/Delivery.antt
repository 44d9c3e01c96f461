-- ===== src/Ctrlq/Memory/Delivery.antt =====
-- Where a published message goes.
use tobey.Common.{
  ◌+◌, ◌%◌, ◌^◌, ℕ, String, ◌≤◌, ◌<◌, ◌≡◌, refl, [], ◌∷◌, ◌++◌, false, some, arith, length, nat_eq,
  ◌==◌, if◌then◌else◌,
}
use tobey.Common.Dict.{lookup, lookup-insert}
use tobey.Chan.{try_send}
use tobey.Chan.Laws.{try_send_of_room}
use tobey.Url.{UrlLib}
use tobey.Ctrlq.Job.{Carrier, VisitMessage, VisitJob}
use tobey.Ctrlq.Hosts.{guess_host}
use tobey.Ctrlq.Limiter.{RateLib}
use tobey.Ctrlq.Controlled.{ControlledQueue}
use tobey.Ctrlq.Memory.{
  MemoryVisitWorkQueue, next_message_id, publish, republish, lazy_host_queue, enqueue, new_message,
  retried_message, count_id, put_queue, trigger_recalc,
}

-- A queue with one more message at its end.
abbrev pub with_message : {L : Type 0} → ControlledQueue L → VisitMessage → ControlledQueue L
with_message hq msg = record hq {
  queue = record (hq.queue) { buffer = hq.queue.buffer ++ some msg ∷ [] };
}

module _ (urls : UrlLib) (x : RateLib) where
  open x use {Bucket}

  -- What a successful send leaves: the message at the end of one queue, and all else as it was.
  pub record Delivered (key : ℕ) (hq : ControlledQueue Bucket) (msg : VisitMessage)
      (wq wq' : MemoryVisitWorkQueue Bucket) : Type 0 where
    pub queues :
        (j : ℕ)
        → lookup j wq'.hqueues
          ≡ (if key == j then some (with_message hq msg) else lookup j wq.hqueues)
    pub default_kept : wq'.dqueue ≡ wq.dqueue
    pub counted : wq'.next_id ≡ msg.id

  abbrev delivered :
      ℕ
      → ControlledQueue Bucket
      → VisitMessage
      → MemoryVisitWorkQueue Bucket
      → MemoryVisitWorkQueue Bucket
  delivered key hq msg wq = trigger_recalc (put_queue key (with_message hq msg) (count_id wq))

  delivered-Delivered :
      (key : ℕ) (hq : ControlledQueue Bucket) (msg : VisitMessage)
      (wq : MemoryVisitWorkQueue Bucket)
      → next_message_id wq ≡ msg.id
      → Delivered key hq msg wq (delivered key hq msg wq)
  unfolding trigger_recalc
  delivered-Delivered key hq msg wq e = record {
    queues = λ j. lookup-insert key j (with_message hq msg) wq.hqueues;
    default_kept = refl;
    counted = e;
  }

  lazy_host_queue_of_lookup :
      (u : String) (wq : MemoryVisitWorkQueue Bucket) (hq : ControlledQueue Bucket)
      → lookup (guess_host urls u) wq.hqueues ≡ some hq
      → lazy_host_queue urls x u wq ≡ some (wq, hq)
  unfolding lazy_host_queue
  lazy_host_queue_of_lookup u wq hq there = rw (there, lazy_host_queue)

  enqueue_of_room :
      (key : ℕ) (hq : ControlledQueue Bucket) (msg : VisitMessage)
      (wq : MemoryVisitWorkQueue Bucket)
      → hq.queue.closed ≡ false
      → length hq.queue.buffer < hq.queue.cap
      → enqueue urls x key hq msg wq ≡ some (put_queue key (with_message hq msg) wq)
  unfolding enqueue
  enqueue_of_room key hq msg wq opened room =
      rw (try_send_of_room hq.queue (some msg) opened room, enqueue)

  enqueue_of_full :
      (key : ℕ) (hq : ControlledQueue Bucket) (msg : VisitMessage)
      (wq : MemoryVisitWorkQueue Bucket)
      → hq.queue.closed ≡ false
      → hq.queue.cap ≤ length hq.queue.buffer
      → enqueue urls x key hq msg wq ≡ some wq
  unfolding enqueue try_send
  enqueue_of_full key hq msg wq opened room = ground arith

  -- A message for a host whose queue is open and has room is put at the end of that queue, with the
  -- run, the URL, the time and the tracing information that it was published with, no retries, and the
  -- number after the last one; every other queue, and the default queue, stay as they were.
  pub publish_appends :
      (now : ℕ) (carrier : Carrier) (run url : String) (wq : MemoryVisitWorkQueue Bucket)
      (hq : ControlledQueue Bucket)
      → lookup (guess_host urls url) wq.hqueues ≡ some hq
      → hq.queue.closed ≡ false
      → length hq.queue.buffer < hq.queue.cap
      → (wq' : MemoryVisitWorkQueue Bucket) × (publish urls x now carrier run url wq ≡ some wq')
        × Delivered
            (guess_host urls url)
            hq
            record {
              id = (wq.next_id + 1) % 2 ^ 32;
              run = run;
              url = url;
              created = now;
              retries = 0;
              carrier = carrier;
            }
            wq
            wq'
  unfolding publish
  publish_appends now carrier run url wq hq there opened room =
      let msg : VisitMessage = new_message now carrier run url wq in
      (
        delivered (guess_host urls url) hq msg wq,
        rw (lazy_host_queue_of_lookup url wq hq there)
            (rw (enqueue_of_room (guess_host urls url) hq msg (count_id wq) opened room) refl),
        delivered-Delivered (guess_host urls url) hq msg wq refl,
      )

  -- A job that is tried again, for a host whose queue is open and has room, is put at the end of
  -- that queue under the number after the last one, with its run, its URL, its time of creation and
  -- its tracing information, and one retry more; every other queue, and the default queue, stay as they were.
  pub republish_appends :
      (job : VisitJob) (wq : MemoryVisitWorkQueue Bucket) (hq : ControlledQueue Bucket)
      → lookup (guess_host urls job.url) wq.hqueues ≡ some hq
      → hq.queue.closed ≡ false
      → length hq.queue.buffer < hq.queue.cap
      → (wq' : MemoryVisitWorkQueue Bucket) × (republish urls x job wq ≡ some wq')
        × Delivered
            (guess_host urls job.url)
            hq
            record {
              id = (wq.next_id + 1) % 2 ^ 32;
              run = job.message.run;
              url = job.message.url;
              created = job.message.created;
              retries = (job.message.retries + 1) % 2 ^ 32;
              carrier = job.context;
            }
            wq
            wq'
  unfolding republish
  republish_appends job wq hq there opened room =
      let msg : VisitMessage = retried_message job wq in
      (
        delivered (guess_host urls job.url) hq msg wq,
        rw (lazy_host_queue_of_lookup job.url wq hq there)
            (rw (enqueue_of_room (guess_host urls job.url) hq msg (count_id wq) opened room) refl),
        delivered-Delivered (guess_host urls job.url) hq msg wq refl,
      )

  -- A full queue drops the message, and `Publish` still reports success.
  pub publish_drops :
      (now : ℕ) (carrier : Carrier) (run url : String) (wq : MemoryVisitWorkQueue Bucket)
      (hq : ControlledQueue Bucket)
      → lookup (guess_host urls url) wq.hqueues ≡ some hq
      → hq.queue.closed ≡ false
      → hq.queue.cap ≤ length hq.queue.buffer
      → publish urls x now carrier run url wq ≡ some (trigger_recalc (count_id wq))
  unfolding publish
  publish_drops now carrier run url wq hq there opened room =
      rw (lazy_host_queue_of_lookup url wq hq there) (
        rw
          (enqueue_of_full (guess_host urls url) hq (new_message now carrier run url wq)
            (count_id wq) opened room)
          refl)
