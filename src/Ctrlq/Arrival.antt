-- ===== src/Ctrlq/Arrival.antt =====
-- What becomes of a message between its publication and a worker.
use mathlib.Core.Option.{some-injective}
use tobey.Common.{
  ℕ, String, ◌+◌, ◌%◌, ◌^◌, ◌≤◌, ◌<◌, ◌≡◌, refl, sym, ap, subst, ◌∙◌, [], ◌∷◌, false, true, some,
  arith, length, nat_eq, ◌==◌,
}
use tobey.Common.Dict.{lookup}
use tobey.Chan.{try_receive}
use tobey.Url.{UrlLib}
use tobey.Ctrlq.Job.{Carrier, VisitMessage}
use tobey.Ctrlq.Hosts.{guess_host}
use tobey.Ctrlq.Limiter.{RateLib}
use tobey.Ctrlq.Controlled.{ControlledQueue}
use tobey.Ctrlq.Memory.{MemoryVisitWorkQueue, publish}
use tobey.Ctrlq.Memory.Delivery.{Delivered, with_message, publish_appends}
use tobey.Ctrlq.Promoter.{scan, settle}
use tobey.Ctrlq.Promoter.Journey.{scan-keeps, settle_moves, settle_loses}
use tobey.Ctrlq.History.{handed, consume}

same_key : (n : ℕ) → (n == n) ≡ true
same_key n = ground arith

module _ (urls : UrlLib) (x : RateLib) where
  open x use {Bucket}

  -- The message that is published with these arguments.
  abbrev pub message_for :
      ℕ → Carrier → String → String → MemoryVisitWorkQueue Bucket → VisitMessage
  message_for now carrier run url wq = record {
    id = (wq.next_id + 1) % 2 ^ 32;
    run = run;
    url = url;
    created = now;
    retries = 0;
    carrier = carrier;
  }

  -- A host's queue that is open, has room and holds nothing.
  pub record IsIdle (key : ℕ) (wq : MemoryVisitWorkQueue Bucket) : Type 0 where
    pub hq : ControlledQueue Bucket
    pub there : lookup key wq.hqueues ≡ some hq
    pub opened : hq.queue.closed ≡ false
    pub empty : hq.queue.buffer ≡ []
    pub room : 0 < hq.queue.cap

  -- A host's queue that holds nothing.
  abbrev pub IsEmptied : ℕ → MemoryVisitWorkQueue Bucket → Type 0
  IsEmptied key wq =
      (hq : ControlledQueue Bucket) × (lookup key wq.hqueues ≡ some hq) × (hq.queue.buffer ≡ [])

  -- After a message was published to an idle host, a scan finds it at the front of that host's queue.
  published-front :
      (now later : ℕ) (carrier : Carrier) (run url : String) (wq wq1 : MemoryVisitWorkQueue Bucket)
      → IsIdle (guess_host urls url) wq
      → publish urls x now carrier run url wq ≡ some wq1
      → (hq' : ControlledQueue Bucket) × (lookup (guess_host urls url) (scan x later wq1).1.hqueues
          ≡ some hq')
        × (hq'.queue.buffer ≡ some (message_for now carrier run url wq) ∷ [])
        × (wq1.dqueue ≡ wq.dqueue)
  published-front now later carrier run url wq wq1 idle put =
      let key = guess_host urls url in
      let (wq', put', d) =
        publish_appends urls x now carrier run url wq idle.hq idle.there idle.opened
          (omega (arith, ap length idle.empty, idle.room)) in
      let same = some-injective wq' wq1 (sym put' ∙ put) in
      let d1 =
        subst (Delivered urls x key idle.hq (message_for now carrier run url wq) wq) same d in
      let stored : lookup key wq1.hqueues
          ≡ some (with_message idle.hq (message_for now carrier run url wq)) =
        d1.queues key ∙ rw (same_key key) refl in
      let (hq', found, kept) = scan-keeps x later wq1 key _ stored in
      (hq', found, ap (λ c. c.buffer) kept ∙ rw idle.empty refl, d1.default_kept)

  -- A message for a host whose queue is open, empty and has room reaches a worker: if nothing is in
  -- the default queue, which is open and has room, and the host is the only candidate of the next
  -- round, then the next job that is consumed is this message, with the run, the URL and the time that
  -- it was published with, no retries, the number after the last one, and its tracing information.
  pub publish_arrives :
      (now later : ℕ) (carrier : Carrier) (run url : String) (wq wq1 : MemoryVisitWorkQueue Bucket)
      → IsIdle (guess_host urls url) wq
      → publish urls x now carrier run url wq ≡ some wq1
      → (scan x later wq1).0.immediate ≡ guess_host urls url ∷ []
      → wq.dqueue.closed ≡ false
      → wq.dqueue.buffer ≡ []
      → 0 < wq.dqueue.cap
      → (wq2 : MemoryVisitWorkQueue Bucket) × (wq3 : MemoryVisitWorkQueue Bucket) × (settle x later
            false
            (scan x later wq1).0
            (scan x later wq1).1
          ≡ some wq2)
        × (consume false wq2
            ≡ handed
                (record { message = message_for now carrier run url wq; context = carrier })
                wq3)
  unfolding scan consume
  publish_arrives now later carrier run url wq wq1 idle put only opened empty room =
      let (hq', found, front, default) =
        published-front now later carrier run url wq wq1 idle put in
      let (wq2, moved, after) =
        settle_moves x later (guess_host urls url) (scan x later wq1).0 (scan x later wq1).1 hq' _
          [] only found front (ap (λ c. c.closed) default ∙ opened)
          (omega (
            arith,
            ap (λ c. length c.buffer) default,
            ap length empty,
            ap (λ c. c.cap) default,
            room,
          )) in
      let held : wq2.dqueue.buffer ≡ some (message_for now carrier run url wq) ∷ [] =
        ap (λ c. c.buffer) after ∙ rw (ap (λ c. c.buffer) default ∙ empty) refl in
      (
        wq2,
        record wq2 { dqueue = record (wq2.dqueue) { buffer = [] } },
        moved,
        rw (consume, try_receive, held) refl,
      )

  -- A message for a host whose queue is open, empty and has room is lost if the default queue is open
  -- but full, and the host is the only candidate of the next round: the round takes the message away
  -- and puts it nowhere; the default queue is as it was, and that of the host is empty.
  pub publish_lost :
      (now later : ℕ) (carrier : Carrier) (run url : String) (wq wq1 : MemoryVisitWorkQueue Bucket)
      → IsIdle (guess_host urls url) wq
      → publish urls x now carrier run url wq ≡ some wq1
      → (scan x later wq1).0.immediate ≡ guess_host urls url ∷ []
      → wq.dqueue.closed ≡ false
      → wq.dqueue.cap ≤ length wq.dqueue.buffer
      → (wq2 : MemoryVisitWorkQueue Bucket) × (settle x later false
            (scan x later wq1).0
            (scan x later wq1).1
          ≡ some wq2)
        × (wq2.dqueue ≡ wq.dqueue)
        × IsEmptied (guess_host urls url) wq2
  unfolding scan
  publish_lost now later carrier run url wq wq1 idle put only opened full =
      let (hq', found, front, default) =
        published-front now later carrier run url wq wq1 idle put in
      let (wq2, moved, after, emptied) =
        settle_loses x later (guess_host urls url) (scan x later wq1).0 (scan x later wq1).1 hq' _
          [] only found front (ap (λ c. c.closed) default ∙ opened)
          (omega (arith, ap (λ c. length c.buffer) default, ap (λ c. c.cap) default, full)) in
      (wq2, moved, after ∙ default, (_, emptied, refl))
