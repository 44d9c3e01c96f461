-- ===== src/Ctrlq/History.antt =====
-- The work queue over time: calls of any number of workers, and the promoter's rounds between them.
use tobey.Common.{
  ℕ, String, ◌≡◌, Bool, false, Option, none, some, arith, Returns-some, subst, ap, sym, length, All,
  ◌∷◌, if◌then◌else◌,
}
use tobey.Chan.{received, zero_value, nothing, try_receive}
use tobey.Failure.{Error}
use tobey.Headers.{Header}
use tobey.Url.{UrlLib}
use tobey.Ctrlq.Job.{Carrier, VisitMessage, VisitJob}
use tobey.Ctrlq.Limiter.{RateLib}
use tobey.Ctrlq.Memory.{
  MemoryVisitWorkQueue, new_memory_visit_work_queue, open_queue, publish, republish, pause_host,
  take_rate_limit_headers, take_sample, calculating, stopped,
}
use tobey.Ctrlq.Memory.Invariant.{Entry, Inv, new_memory_visit_work_queue-Inv}
use tobey.Ctrlq.Memory.Calls.{
  publish-Returns, republish-Returns, pause_host-Returns, take_rate_limit_headers-Returns,
  take_sample-Returns,
}
use tobey.Ctrlq.Promoter.{Candidates, scan, settle}
use tobey.Ctrlq.Promoter.Kept.{scan-Inv, settle-Returns}

-- One turn of the goroutine that `Consume` starts: it hands a job on, ends, or stays blocked.
pub data Consumed (L : Type 0) : Type 0 where
  handed : VisitJob → MemoryVisitWorkQueue L → Consumed L
  ended : Consumed L
  blocked : Consumed L

-- A nil message stands for a closed channel.
hand_on : {L : Type 0} → Option VisitMessage → MemoryVisitWorkQueue L → Consumed L
hand_on none wq = ended
hand_on (some msg) wq = handed (record { message = msg; context = msg.carrier }) wq

-- `done` says that the context is cancelled and that the `select` takes that case.
unfoldable pub consume : {L : Type 0} → Bool → MemoryVisitWorkQueue L → Consumed L
unfolding try_receive hand_on
consume done wq = if done then ended else elim (try_receive wq.dqueue) [
  | received msg c ↦ hand_on msg (record wq { dqueue = c })
  | zero_value ↦ ended
  | nothing ↦ blocked
]

-- A job that a worker is handed is the oldest promoted message, with its tracing information.
pub consume-handed :
    {L : Type 0} (wq wq' : MemoryVisitWorkQueue L) (job : VisitJob)
    → consume false wq ≡ handed job wq'
    → (wq.dqueue.buffer ≡ some job.message ∷ wq'.dqueue.buffer)
      × (job.context ≡ job.message.carrier)
      × (wq'.hqueues ≡ wq.hqueues)
      × (wq'.dqueue.cap ≡ wq.dqueue.cap)
unfolding consume
consume-handed wq wq' job e = (ground arith, ground arith, ground arith, ground arith)

module _ (urls : UrlLib) (x : RateLib) where
  open x use {Bucket}

  pub data Step (wq wq' : MemoryVisitWorkQueue Bucket) : Type 0 where
    published :
        (now : ℕ) (carrier : Carrier) (run url : String)
        → publish urls x now carrier run url wq ≡ some wq'
        → Step wq wq'
    republished : (job : VisitJob) → republish urls x job wq ≡ some wq' → Step wq wq'
    paused :
        (now : ℕ) (url : String) (d : ℕ) → pause_host urls x now url d wq ≡ some wq' → Step wq wq'
    read_headers :
        (url : String) (hdr : Header)
        → take_rate_limit_headers urls x url hdr wq ≡ some wq'
        → Step wq wq'
    sampled :
        (url : String) (status_code : ℕ) (err : Option Error) (d : ℕ)
        → take_sample urls x url status_code err d wq ≡ some wq'
        → Step wq wq'
    scanned : (now : ℕ) → (scan x now wq).1 ≡ wq' → Step wq wq'
    settled :
        (now : ℕ) (done : Bool) (found : Candidates Bucket)
        → settle x now done found wq ≡ some wq'
        → Step wq wq'
    -- the promoter's timer runs out, or its context is cancelled
    woke : record wq { promoter = calculating } ≡ wq' → Step wq wq'
    left : record wq { promoter = stopped } ≡ wq' → Step wq wq'
    consumed : (job : VisitJob) → consume false wq ≡ handed job wq' → Step wq wq'

  pub data Reach (wq : MemoryVisitWorkQueue Bucket) : MemoryVisitWorkQueue Bucket → Type 0 where
    here : Reach wq wq
    next : {wq' wq'' : MemoryVisitWorkQueue Bucket} → Reach wq wq' → Step wq' wq'' → Reach wq wq''

  consume-Inv :
      (wq wq' : MemoryVisitWorkQueue Bucket) (job : VisitJob)
      → consume false wq ≡ handed job wq'
      → Inv urls x wq
      → Inv urls x wq'
  consume-Inv wq wq' job e v =
      let (buffer, _, hqueues, cap) = consume-handed wq wq' job e in
      record {
        default_fits = omega (arith, ap length buffer, cap, v.default_fits);
        hosts = subst (All (Entry urls x)) (sym hqueues) v.hosts;
      }

  Step-Inv : {wq wq' : MemoryVisitWorkQueue Bucket} → Step wq wq' → Inv urls x wq → Inv urls x wq'
  Step-Inv {wq} (published now carrier run url e) v =
      Returns-some (Inv urls x) _ (publish-Returns urls x now carrier run url wq v) e
  Step-Inv {wq} (republished job e) v =
      Returns-some (Inv urls x) _ (republish-Returns urls x job wq v) e
  Step-Inv {wq} (paused now url d e) v =
      Returns-some (Inv urls x) _ (pause_host-Returns urls x now url d wq v) e
  Step-Inv {wq} (read_headers url hdr e) v =
      Returns-some (Inv urls x) _ (take_rate_limit_headers-Returns urls x url hdr wq v) e
  Step-Inv {wq} (sampled url status_code err d e) v =
      Returns-some (Inv urls x) _ (take_sample-Returns urls x url status_code err d wq v) e
  Step-Inv {wq} (scanned now e) v = subst (Inv urls x) e (scan-Inv urls x now wq v)
  Step-Inv {wq} (settled now done found e) v =
      Returns-some (Inv urls x) _ (settle-Returns urls x now done found wq v) e
  Step-Inv (woke e) v =
      subst (Inv urls x) e (record { default_fits = v.default_fits; hosts = v.hosts })
  Step-Inv (left e) v =
      subst (Inv urls x) e (record { default_fits = v.default_fits; hosts = v.hosts })
  Step-Inv {wq} {wq'} (consumed job e) v = consume-Inv wq wq' job e v

  -- In every state that the calls and the promoter reach, in any order, no channel is over its
  -- capacity, each host's queue holds messages for that host only, and no limit is below MinHostRPS.
  pub Reach-Inv :
      (wq : MemoryVisitWorkQueue Bucket)
      → Reach (open_queue new_memory_visit_work_queue) wq
      → Inv urls x wq
  unfolding open_queue
  Reach-Inv wq here =
      let v = new_memory_visit_work_queue-Inv urls x in
      record { default_fits = v.default_fits; hosts = v.hosts }
  Reach-Inv wq (next {wq' = before} r s) = Step-Inv s (Reach-Inv before r)
