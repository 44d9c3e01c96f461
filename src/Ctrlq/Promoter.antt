-- ===== src/Ctrlq/Promoter.antt =====
-- internal/ctrlq/promoter.go. One reading of the clock, `now`, serves a whole round.
pub mod Scanning
pub mod Rounds
pub mod Journey
pub mod Kept
use tobey.Common.{
  ℕ, zero, suc, ◌+◌, ◌-◌, ◌*◌, ◌%◌, ◌^◌, List, [], ◌∷◌, Bool, true, false, not, Option, none, some,
  length, get_elem?, ltb, ◌||◌, if◌then◌else◌, ◌==◌, nat_eq, ◌>>=◌,
}
use tobey.Common.Dict.{lookup, insert}
use tobey.Chan.{
  Chan, try_send, Sent, sent, full, send_panics, try_receive, Received, received, zero_value,
  nothing,
}
use tobey.Ctrlq.Job.{VisitMessage}
use tobey.Ctrlq.Limiter.{
  RateLib, Reservation, MemoryLimiter, reserve, holds_reservation, release_reservation,
}
use tobey.Ctrlq.Controlled.{ControlledQueue, is_paused, pause, second}
use tobey.Ctrlq.Memory.{MemoryVisitWorkQueue, calculating, waiting, stopped, put_queue}

-- What `candidates` finds of one queue: nothing to do, a pause up to a second, or a message that may
-- be promoted at once.
pub data Verdict : Type 0 where
  skipped : Verdict
  paused : ℕ → Verdict
  ready : Verdict

module _ (x : RateLib) where
  open x use {Bucket}

  hold_back : ControlledQueue Bucket → ℕ → ℕ → ControlledQueue Bucket × Verdict
  unfolding pause
  hold_back hq now delay = let (hq', until) = pause hq now delay in (hq', paused until)

  after_reserve :
      ControlledQueue Bucket
      → ℕ
      → Reservation (MemoryLimiter Bucket)
      → ControlledQueue Bucket × Verdict
  unfolding hold_back
  after_reserve hq now r =
      let hq1 = record hq { limiter = r.rest } in
      if not r.granted
      then (hq1, skipped)
      else if ltb 0 r.delay
      then hold_back hq1 now r.delay
      else (hq1, ready)

  -- The body of the loop over the host queues.
  unfoldable pub check_queue : ℕ → ControlledQueue Bucket → ControlledQueue Bucket × Verdict
  unfolding after_reserve is_paused holds_reservation reserve
  check_queue now hq =
      if length hq.queue.buffer == 0
      then (hq, skipped)
      else if (is_paused hq now).0
      then (hq, paused hq.paused_until)
      else if holds_reservation hq.limiter
      then (hq, ready)
      else after_reserve hq now (reserve x hq.limiter now)

-- `shortestPauseUntil` after one more queue; `none` is the zero time.
abbrev pub shorter : Verdict → Option ℕ → Option ℕ
shorter (paused until) none = some until
shorter (paused until) (some best) = if ltb until best then some until else some best
shorter _ best = best

abbrev pub with_key : Verdict → ℕ → List ℕ → List ℕ
with_key ready key keys = key ∷ keys
with_key _ key keys = keys

pub record Candidates (L : Type 0) : Type 0 where
  pub immediate : List ℕ
  pub shortest_pause_until : Option ℕ
  pub hqueues : List (ℕ × ControlledQueue L)

module _ (x : RateLib) where
  open x use {Bucket}

  unfoldable pub candidates_from :
      ℕ → Option ℕ → List (ℕ × ControlledQueue Bucket) → Candidates Bucket
  unfolding check_queue
  candidates_from now best [] = record { immediate = []; shortest_pause_until = best; hqueues = [] }
  candidates_from now best ((key, hq) ∷ m) =
      let (hq', verdict) = check_queue x now hq in
      let rest = candidates_from now (shorter verdict best) m in
      record {
        immediate = with_key verdict key rest.immediate;
        shortest_pause_until = rest.shortest_pause_until;
        hqueues = (key, hq') ∷ rest.hqueues;
      }

  unfoldable pub candidates : ℕ → List (ℕ × ControlledQueue Bucket) → Candidates Bucket
  unfolding candidates_from
  candidates now m = candidates_from now none m

-- The channels after `promote` and its result; `none` if it sends on a closed channel. `done` says
-- that the context is cancelled: then the `select` may take that case although a message is there.
deliver {ℓ} : {V : Type ℓ} → V → Chan V → Chan V → Option (Chan V × Chan V × Bool)
unfolding try_send
deliver msg a b = elim (try_send b msg) [
  | sent b' ↦ some (a, b', true)
  | full ↦ some (a, b, false)
  | send_panics ↦ none
]

unfoldable pub promote {ℓ} :
    {V : Type ℓ} → V → Bool → Chan V → Chan V → Option (Chan V × Chan V × Bool)
unfolding try_receive deliver
promote zero_v done a b = if done then some (a, b, false) else elim (try_receive a) [
  | received msg a' ↦ deliver msg a' b
  | zero_value ↦ deliver zero_v a b
  | nothing ↦ some (a, b, false)
]

-- `(int(n)-1) % len(immediate)` for the uint32 counter `n`: where it has wrapped to 0 Go's remainder
-- is -1, no index, unless there is but one candidate.
unfoldable pub pick : ℕ → ℕ → Option ℕ
pick zero count = if count == 1 then some 0 else none
pick (suc m) count = some (m % count)

-- time.After in the `select`: up to the end of the shortest pause, or a minute.
unfoldable pub wait_time : ℕ → Option ℕ → ℕ
wait_time now none = 60 * second
wait_time now (some until) = until * second - now

module _ (x : RateLib) where
  open x use {Bucket}

  abbrev release : Bool → ControlledQueue Bucket → ControlledQueue Bucket
  release promoted hq =
      if promoted then record hq { limiter = release_reservation hq.limiter } else hq

  -- The rest of a round that has a candidate.
  unfoldable pub promote_from :
      Bool → ℕ → MemoryVisitWorkQueue Bucket → Option (MemoryVisitWorkQueue Bucket)
  unfolding lookup insert promote release_reservation
  promote_from done key wq = elim (lookup key wq.hqueues) [
    | none ↦ some wq
    | some hq ↦ do
      (a, b, promoted) ← promote none done hq.queue wq.dqueue
      some (record wq {
        dqueue = b;
        hqueues = insert key (release promoted (record hq { queue = a })) wq.hqueues;
      })
  ]

  choose : Bool → List ℕ → MemoryVisitWorkQueue Bucket → Option (MemoryVisitWorkQueue Bucket)
  unfolding pick promote_from
  choose done immediate wq = do
    let n = (wq.next + 1) % 2 ^ 32
    i ← pick n (length immediate)
    key ← get_elem? immediate i
    promote_from done key (record wq { next = n })

  -- A round comes in two parts, between which other goroutines may run: the look at the queues,
  unfoldable pub scan :
      ℕ → MemoryVisitWorkQueue Bucket → Candidates Bucket × MemoryVisitWorkQueue Bucket
  unfolding candidates
  scan now wq =
      let found = candidates x now wq.hqueues in (found, record wq { hqueues = found.hqueues })

  -- and what `promoteLoop` does with the outcome. `done` as for `promote`; `none` is a panic.
  unfoldable pub settle :
      ℕ
      → Bool
      → Candidates Bucket
      → MemoryVisitWorkQueue Bucket
      → Option (MemoryVisitWorkQueue Bucket)
  unfolding wait_time choose
  settle now done found wq =
      if length found.immediate == 0
      then some (record wq { promoter = waiting (wait_time now found.shortest_pause_until) })
      else choose done found.immediate wq

  -- A round that nothing interrupts.
  unfoldable pub promote_round :
      ℕ → Bool → MemoryVisitWorkQueue Bucket → Option (MemoryVisitWorkQueue Bucket)
  unfolding scan settle
  promote_round now done wq = let (found, wq1) = scan now wq in settle now done found wq1
