-- ===== src/Ctrlq/Memory/Numbers.antt =====
-- Which calls of the queue leave the number of its last message alone.
use tobey.Common.{
  ℕ, String, Bool, true, false, not, Option, some, ◌≡◌, refl, Returns, Returns-bind, Option-cases,
  inl, inr, nat_eq, if◌then◌else◌,
}
use tobey.Common.Dict.{lookup}
use tobey.Failure.{Error}
use tobey.Headers.{Header}
use tobey.Url.{UrlLib}
use tobey.Ctrlq.Hosts.{guess_host}
use tobey.Ctrlq.Limiter.{RateLib}
use tobey.Ctrlq.Controlled.{ControlledQueue}
use tobey.Ctrlq.Memory.{
  MemoryVisitWorkQueue, lazy_host_queue, pause_host, tune, take_rate_limit_headers, take_sample,
}

module _ (urls : UrlLib) (x : RateLib) where
  open x use {Bucket}

  -- The last message of the queue has the same number as that of another.
  abbrev pub SameNumber : MemoryVisitWorkQueue Bucket → MemoryVisitWorkQueue Bucket → Type 0
  SameNumber wq wq' = wq'.next_id ≡ wq.next_id

  lazy_host_queue-SameNumber :
      (u : String) (wq : MemoryVisitWorkQueue Bucket)
      → Returns
          (λ (r : MemoryVisitWorkQueue Bucket × ControlledQueue Bucket). SameNumber wq r.0)
          (lazy_host_queue urls x u wq)
  unfolding lazy_host_queue
  lazy_host_queue-SameNumber u wq = elim (Option-cases (lookup (guess_host urls u) wq.hqueues)) [
    | inl missing ↦ elim (Option-cases (urls.parse u)) [
      | inl bad ↦ rw (missing, lazy_host_queue, bad) tt
      | inr (p, good) ↦ rw (missing, lazy_host_queue, good) refl
    ]
    | inr (hq, there) ↦ rw (there, lazy_host_queue) refl
  ]

  pub pause_host-SameNumber :
      (now : ℕ) (u : String) (d : ℕ) (wq : MemoryVisitWorkQueue Bucket)
      → Returns (SameNumber wq) (pause_host urls x now u d wq)
  unfolding pause_host
  pause_host-SameNumber now u d wq =
      Returns-bind _ (SameNumber wq) (lazy_host_queue urls x u wq) _
        (lazy_host_queue-SameNumber u wq) λ r h. h

  tuned :
      (key : ℕ) (hq : ControlledQueue Bucket) (answer : Bool × ℕ)
      (wq wq1 : MemoryVisitWorkQueue Bucket)
      → SameNumber wq wq1
      → SameNumber wq (tune urls x key hq answer wq1)
  unfolding tune
  tuned key hq (true, desired) wq wq1 h = h
  tuned key hq (false, desired) wq wq1 h = h

  perhaps :
      (b : Bool) (wq v v' : MemoryVisitWorkQueue Bucket)
      → SameNumber wq v
      → SameNumber wq v'
      → Returns (SameNumber wq) (if b then some v else some v')
  perhaps true wq v v' h h' = h
  perhaps false wq v v' h h' = h'

  pub take_rate_limit_headers-SameNumber :
      (u : String) (hdr : Header) (wq : MemoryVisitWorkQueue Bucket)
      → Returns (SameNumber wq) (take_rate_limit_headers urls x u hdr wq)
  unfolding take_rate_limit_headers
  take_rate_limit_headers-SameNumber u hdr wq =
      Returns-bind _ (SameNumber wq) (lazy_host_queue urls x u wq) _
        (lazy_host_queue-SameNumber u wq)
        λ (wq1, hq) h. perhaps (not hq.is_adaptive) wq wq1 _ h (tuned _ hq _ wq wq1 h)

  pub take_sample-SameNumber :
      (u : String) (code : ℕ) (err : Option Error) (d : ℕ) (wq : MemoryVisitWorkQueue Bucket)
      → Returns (SameNumber wq) (take_sample urls x u code err d wq)
  unfolding take_sample
  take_sample-SameNumber u code err d wq =
      Returns-bind _ (SameNumber wq) (lazy_host_queue urls x u wq) _
        (lazy_host_queue-SameNumber u wq)
        λ (wq1, hq) h. perhaps (not hq.is_adaptive) wq wq1 _ h (tuned _ hq _ wq wq1 h)
