-- ===== src/Ctrlq/Promoter/Journey.antt =====
-- The way of a message from the queue of its host through a round of the promoter.
use mathlib.Core.Option.{some-injective}
use tobey.Common.{
  ℕ, suc, zero, ◌+◌, ◌%◌, ◌^◌, ◌≤◌, ◌<◌, ◌≡◌, refl, ap, ◌∙◌, List, [], ◌∷◌, ◌++◌, true, false,
  Option, none, some, arith, length, nat_eq, ◌==◌, Bool-cases, inl, inr,
}
use tobey.Common.Dict.{lookup, lookup-insert, insert}
use tobey.Chan.{Chan}
use tobey.Ctrlq.Job.{VisitMessage}
use tobey.Ctrlq.Limiter.{RateLib}
use tobey.Ctrlq.Controlled.{ControlledQueue}
use tobey.Ctrlq.Memory.{MemoryVisitWorkQueue}
use tobey.Ctrlq.Promoter.Scanning.{check_queue-queue}
use tobey.Ctrlq.Promoter.{
  check_queue, candidates_from, candidates, choose, promote, promote_from, release, pick, shorter,
  Candidates, scan, settle,
}

pick_single : (n : ℕ) → pick n 1 ≡ some 0
unfolding pick
pick_single zero = refl
pick_single (suc m) = ap some (omega arith)

module _ {ℓ} {V : Type ℓ} where
  promote_with_room :
      (zero_v v : V) (rest : List V) (a b : Chan V)
      → a.buffer ≡ v ∷ rest
      → b.closed ≡ false
      → length b.buffer < b.cap
      → promote zero_v false a b
        ≡ some (record a { buffer = rest }, record b { buffer = b.buffer ++ v ∷ [] }, true)
  unfolding promote
  promote_with_room zero_v v rest a b e open_b room = ground arith

  promote_when_full :
      (zero_v v : V) (rest : List V) (a b : Chan V)
      → a.buffer ≡ v ∷ rest
      → b.closed ≡ false
      → b.cap ≤ length b.buffer
      → promote zero_v false a b ≡ some (record a { buffer = rest }, b, false)
  unfolding promote
  promote_when_full zero_v v rest a b e open_b room = ground arith

module _ (x : RateLib) where
  open x use {Bucket}

  -- A scan keeps the channels of all host queues.
  lookup-candidates_from :
      (now : ℕ) (best : Option ℕ) (m : List (ℕ × ControlledQueue Bucket)) (key : ℕ)
      (hq : ControlledQueue Bucket)
      → lookup key m ≡ some hq
      → lookup key (candidates_from x now best m).hqueues ≡ some (check_queue x now hq).0
  unfolding candidates_from lookup
  lookup-candidates_from now best [] key hq there = cc there
  lookup-candidates_from now best ((k, h) ∷ m) key hq there = elim (Bool-cases (k == key)) [
    | inl same ↦
        rw same (ap (λ q. some (check_queue x now q).0) (some-injective h hq (rw same at there)))
    | inr other ↦ rw other (
        lookup-candidates_from now (shorter (check_queue x now h).1 best) m key hq
          (rw other at there))
  ]

  pub scan-keeps :
      (now : ℕ) (wq : MemoryVisitWorkQueue Bucket) (key : ℕ) (hq : ControlledQueue Bucket)
      → lookup key wq.hqueues ≡ some hq
      → (hq' : ControlledQueue Bucket) × (lookup key (scan x now wq).1.hqueues ≡ some hq')
        × (hq'.queue ≡ hq.queue)
  unfolding scan candidates
  scan-keeps now wq key hq there = (
    (check_queue x now hq).0,
    lookup-candidates_from now none wq.hqueues key hq there,
    (check_queue-queue x now hq).0,
  )

  settle_single :
      (now key : ℕ) (found : Candidates Bucket) (wq : MemoryVisitWorkQueue Bucket)
      → found.immediate ≡ key ∷ []
      → settle x now false found wq
        ≡ promote_from x false key (record wq { next = (wq.next + 1) % 2 ^ 32 })
  unfolding settle choose
  settle_single now key found wq only = rw (only, pick_single ((wq.next + 1) % 2 ^ 32))

  -- A round with one candidate moves the oldest message of its queue to the end of the default queue,
  -- if that has room.
  pub settle_moves :
      (now key : ℕ) (found : Candidates Bucket) (wq : MemoryVisitWorkQueue Bucket)
      (hq : ControlledQueue Bucket) (msg : VisitMessage) (rest : List (Option VisitMessage))
      → found.immediate ≡ key ∷ []
      → lookup key wq.hqueues ≡ some hq
      → hq.queue.buffer ≡ some msg ∷ rest
      → wq.dqueue.closed ≡ false
      → length wq.dqueue.buffer < wq.dqueue.cap
      → (wq' : MemoryVisitWorkQueue Bucket) × (settle x now false found wq ≡ some wq')
        × (wq'.dqueue ≡ record (wq.dqueue) { buffer = wq.dqueue.buffer ++ some msg ∷ [] })
  unfolding promote_from
  settle_moves now key found wq hq msg rest only there front opened room = (
    record wq {
      next = (wq.next + 1) % 2 ^ 32;
      dqueue = record (wq.dqueue) { buffer = wq.dqueue.buffer ++ some msg ∷ [] };
      hqueues =
          insert key (release x true (record hq { queue = record (hq.queue) { buffer = rest } }))
            wq.hqueues;
    },
    settle_single now key found wq only
        ∙ rw
            (
              promote_from,
              there,
              promote_with_room none (some msg) rest hq.queue wq.dqueue front opened room,
            )
            refl,
    refl,
  )

  -- A round with one candidate takes the oldest message of its queue away from there, too, if the
  -- default queue is full.
  pub settle_loses :
      (now key : ℕ) (found : Candidates Bucket) (wq : MemoryVisitWorkQueue Bucket)
      (hq : ControlledQueue Bucket) (msg : VisitMessage) (rest : List (Option VisitMessage))
      → found.immediate ≡ key ∷ []
      → lookup key wq.hqueues ≡ some hq
      → hq.queue.buffer ≡ some msg ∷ rest
      → wq.dqueue.closed ≡ false
      → wq.dqueue.cap ≤ length wq.dqueue.buffer
      → (wq' : MemoryVisitWorkQueue Bucket) × (settle x now false found wq ≡ some wq')
        × (wq'.dqueue ≡ wq.dqueue)
        × (lookup key wq'.hqueues
            ≡ some (record hq { queue = record (hq.queue) { buffer = rest } }))
  unfolding promote_from
  settle_loses now key found wq hq msg rest only there front opened room = (
    record wq {
      next = (wq.next + 1) % 2 ^ 32;
      hqueues = insert key (record hq { queue = record (hq.queue) { buffer = rest } }) wq.hqueues;
    },
    settle_single now key found wq only
        ∙ rw
            (
              promote_from,
              there,
              promote_when_full none (some msg) rest hq.queue wq.dqueue front opened room,
            )
            refl,
    refl,
    lookup-insert key key _ wq.hqueues ∙ rw (same key) refl,
  )
    where
      same : (n : ℕ) → (n == n) ≡ true
      same n = ground arith
