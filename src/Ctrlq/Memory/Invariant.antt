-- ===== src/Ctrlq/Memory/Invariant.antt =====
-- What holds of the work queue between two calls.
use tobey.Common.{
  ℕ, String, ◌≤◌, ◌≡◌, refl, [], ◌∷◌, Option, none, some, arith, All, All-append, Option-cases, inl,
  inr, nat_eq, Returns,
}
use tobey.Common.Dict.{lookup, All-lookup, All-insert}
use tobey.Chan.{Chan, Sent, sent, full, send_panics, try_send}
use tobey.Chan.Laws.{Fits, try_send-Fits, try_send-buffer}
use tobey.Url.{Url, UrlLib}
use tobey.Ctrlq.Job.{VisitMessage}
use tobey.Ctrlq.Hosts.{guess_host}
use tobey.Ctrlq.Limiter.{RateLib, new_memory_limiter, get_limit, min_host_rps}
use tobey.Ctrlq.Controlled.{ControlledQueue}
use tobey.Ctrlq.Memory.{
  MemoryVisitWorkQueue, fresh_queue, lazy_host_queue, enqueue, put_queue,
  new_memory_visit_work_queue,
}

module _ (urls : UrlLib) (x : RateLib) where
  open x use {Bucket}

  -- A queue holds messages for its host only.
  abbrev pub IsFor : ℕ → Option VisitMessage → Type 0
  IsFor key none = ⊥
  IsFor key (some msg) = guess_host urls msg.url ≡ key

  pub record IsSound (key : ℕ) (hq : ControlledQueue Bucket) : Type 0 where
    pub named : hq.id ≡ key
    pub fits : Fits hq.queue
    pub sorted : All (IsFor key) hq.queue.buffer
    pub floor : min_host_rps ≤ get_limit x hq.limiter

  abbrev pub Entry : ℕ × ControlledQueue Bucket → Type 0
  Entry e = IsSound e.0 e.1

  pub record Inv (wq : MemoryVisitWorkQueue Bucket) : Type 0 where
    pub default_fits : Fits wq.dqueue
    pub hosts : All Entry wq.hqueues

  pub new_memory_visit_work_queue-Inv : Inv new_memory_visit_work_queue
  unfolding new_memory_visit_work_queue
  new_memory_visit_work_queue-Inv = record { default_fits = omega arith; hosts = tt }

  fresh_queue-IsSound : (key : ℕ) (p : Url) → IsSound key (fresh_queue urls x key p)
  unfolding fresh_queue get_limit new_memory_limiter
  fresh_queue-IsSound key p = record {
    named = refl;
    fits = omega arith;
    sorted = tt;
    floor = omega (arith, x.limit-new_limiter min_host_rps);
  }

  pub put_queue-Inv :
      (key : ℕ) (hq : ControlledQueue Bucket) (wq : MemoryVisitWorkQueue Bucket)
      → IsSound key hq
      → Inv wq
      → Inv (put_queue key hq wq)
  put_queue-Inv key hq wq s v = record {
    default_fits = v.default_fits;
    hosts = All-insert Entry key hq wq.hqueues s v.hosts;
  }

  -- What `lazy_host_queue` returns.
  abbrev pub Found : String → MemoryVisitWorkQueue Bucket × ControlledQueue Bucket → Type 0
  Found u r = Inv r.0 × IsSound (guess_host urls u) r.1

  pub lazy_host_queue-Inv :
      (u : String) (wq : MemoryVisitWorkQueue Bucket)
      → Inv wq
      → Returns (Found u) (lazy_host_queue urls x u wq)
  unfolding lazy_host_queue
  lazy_host_queue-Inv u wq v = elim (Option-cases (lookup (guess_host urls u) wq.hqueues)) [
    | inr (hq, there) ↦
        rw (there, lazy_host_queue)
          (v, All-lookup Entry (guess_host urls u) wq.hqueues hq v.hosts there)
    | inl missing ↦
        rw (missing, lazy_host_queue)
          (elim (Option-cases (urls.parse u)) [
            | inl bad ↦ rw bad tt
            | inr (p, good) ↦ rw good (
              put_queue-Inv (guess_host urls u) (fresh_queue urls x (guess_host urls u) p) wq
                  (fresh_queue-IsSound (guess_host urls u) p) v,
              fresh_queue-IsSound (guess_host urls u) p,
            )
          ])
  ]

  send-IsSound :
      (key : ℕ) (hq : ControlledQueue Bucket) (msg : VisitMessage) (c : Chan (Option VisitMessage))
      → IsSound key hq
      → IsFor key (some msg)
      → try_send hq.queue (some msg) ≡ sent c
      → IsSound key (record hq { queue = c })
  send-IsSound key hq msg c s p e = record {
    named = s.named;
    fits = try_send-Fits hq.queue c (some msg) e s.fits;
    sorted =
        rw (try_send-buffer hq.queue c (some msg) e)
          (All-append (IsFor key) hq.queue.buffer (some msg ∷ []) s.sorted (p, tt));
    floor = s.floor;
  }

  pub enqueue-Inv :
      (key : ℕ) (hq : ControlledQueue Bucket) (msg : VisitMessage)
      (wq : MemoryVisitWorkQueue Bucket)
      → IsSound key hq
      → IsFor key (some msg)
      → Inv wq
      → Returns Inv (enqueue urls x key hq msg wq)
  unfolding enqueue
  enqueue-Inv key hq msg wq s p v = go (try_send hq.queue (some msg)) refl
    where
      go :
          (r : Sent (Option VisitMessage))
          → try_send hq.queue (some msg) ≡ r
          → Returns Inv (enqueue urls x key hq msg wq)
      go (sent c) e =
          rw (e, enqueue)
            (put_queue-Inv key (record hq { queue = c }) wq (send-IsSound key hq msg c s p e) v)
      go full e = rw (e, enqueue) v
      go send_panics e = rw (e, enqueue) tt
