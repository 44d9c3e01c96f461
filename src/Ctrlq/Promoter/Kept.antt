-- ===== src/Ctrlq/Promoter/Kept.antt =====
-- The promoter, and the work queue's invariant.
use tobey.Common.{
  ℕ, ◌+◌, ◌≡◌, refl, sym, ◌∙◌, subst, List, [], ◌∷◌, Bool, true, false, Option, none, arith, length,
  All, Option-cases, inl, inr, nat_eq, Returns, Returns-bind, get_elem?, ◌%◌, ◌^◌, Bool-cases, ◌==◌,
  Returns-any,
}
use tobey.Common.Dict.{lookup, All-lookup, All-insert}
use tobey.Chan.{
  Chan, Sent, sent, full, send_panics, try_send, Received, received, zero_value, nothing,
  try_receive,
}
use tobey.Chan.Laws.{Fits, try_send-Fits, try_receive-buffer, try_receive-Fits}
use tobey.Url.{UrlLib}
use tobey.Ctrlq.Job.{VisitMessage}
use tobey.Ctrlq.Limiter.{RateLib, get_limit, release_reservation}
use tobey.Ctrlq.Controlled.{ControlledQueue}
use tobey.Ctrlq.Memory.{MemoryVisitWorkQueue}
use tobey.Ctrlq.Memory.Invariant.{IsFor, IsSound, Entry, Inv}
use tobey.Ctrlq.Promoter.Scanning.{check_queue-queue}
use tobey.Ctrlq.Promoter.{
  check_queue, candidates_from, shorter, release, deliver, choose, promote, promote_from, pick,
  Candidates, scan, settle,
}

module _ (urls : UrlLib) (x : RateLib) where
  open x use {Bucket}

  check_queue-limit :
      (now : ℕ) (hq : ControlledQueue Bucket)
      → get_limit x (check_queue x now hq).0.limiter ≡ get_limit x hq.limiter
  unfolding check_queue get_limit
  check_queue-limit now hq = ground (arith, x.limit-reserve_n hq.limiter.bucket now)

  check_queue-IsSound :
      (now key : ℕ) (hq : ControlledQueue Bucket)
      → IsSound urls x key hq
      → IsSound urls x key (check_queue x now hq).0
  check_queue-IsSound now key hq s =
      let (queue, id, _, _) = check_queue-queue x now hq in
      record {
        named = id ∙ s.named;
        fits = subst Fits (sym queue) s.fits;
        sorted =
            subst (λ (c : Chan (Option VisitMessage)). All (IsFor urls x key) c.buffer) (sym queue)
              s.sorted;
        floor = omega (arith, check_queue-limit now hq, s.floor);
      }

  candidates_from-Entry :
      (now : ℕ) (best : Option ℕ) (m : List (ℕ × ControlledQueue Bucket))
      → All (Entry urls x) m
      → All (Entry urls x) (candidates_from x now best m).hqueues
  unfolding candidates_from
  candidates_from-Entry now best [] h = tt
  candidates_from-Entry now best ((k, hq) ∷ m) (s, h) = (
    check_queue-IsSound now k hq s,
    candidates_from-Entry now (shorter (check_queue x now hq).1 best) m h,
  )

  release-IsSound :
      (key : ℕ) (hq : ControlledQueue Bucket) (a : Chan (Option VisitMessage)) (promoted : Bool)
      → IsSound urls x key hq
      → Fits a
      → All (IsFor urls x key) a.buffer
      → IsSound urls x key (release x promoted (record hq { queue = a }))
  unfolding get_limit release_reservation
  release-IsSound key hq a true s fits sorted = record {
    named = s.named;
    fits = fits;
    sorted = sorted;
    floor = s.floor;
  }
  release-IsSound key hq a false s fits sorted = record {
    named = s.named;
    fits = fits;
    sorted = sorted;
    floor = s.floor;
  }

  -- The two channels and the answer of `promote`.
  record Moved (key : ℕ) (r : Chan (Option VisitMessage) × Chan (Option VisitMessage) × Bool)
      : Type 0 where
    source_fits : Fits r.0
    source_sorted : All (IsFor urls x key) r.0.buffer
    target_fits : Fits r.1

  deliver-Moved :
      (key : ℕ) (msg : Option VisitMessage) (a b : Chan (Option VisitMessage))
      → Fits a
      → All (IsFor urls x key) a.buffer
      → Fits b
      → Returns (Moved key) (deliver msg a b)
  unfolding deliver
  deliver-Moved key msg a b fa sa fb = go (try_send b msg) refl
    where
      go :
          (r : Sent (Option VisitMessage))
          → try_send b msg ≡ r
          → Returns (Moved key) (deliver msg a b)
      go (sent c) e =
          rw (e, deliver)
            (record {
              source_fits = fa;
              source_sorted = sa;
              target_fits = try_send-Fits b c msg e fb;
            })
      go full e =
          rw (e, deliver) (record { source_fits = fa; source_sorted = sa; target_fits = fb })
      go send_panics e = rw (e, deliver) tt

  promote-Moved :
      (key : ℕ) (done : Bool) (a b : Chan (Option VisitMessage))
      → Fits a
      → All (IsFor urls x key) a.buffer
      → Fits b
      → Returns (Moved key) (promote none done a b)
  unfolding promote
  promote-Moved key true a b fa sa fb = record {
    source_fits = fa;
    source_sorted = sa;
    target_fits = fb;
  }
  promote-Moved key false a b fa sa fb = go (try_receive a) refl
    where
      go :
          (r : Received (Option VisitMessage))
          → try_receive a ≡ r
          → Returns (Moved key) (promote none false a b)
      go (received msg a') e =
          rw (e, promote)
            (deliver-Moved key msg a' b (try_receive-Fits a a' msg e fa)
              (subst (All (IsFor urls x key)) (try_receive-buffer a a' msg e) sa).1 fb)
      go zero_value e = rw (e, promote) (deliver-Moved key none a b fa sa fb)
      go nothing e =
          rw (e, promote) (record { source_fits = fa; source_sorted = sa; target_fits = fb })

  promote_from-Returns :
      (done : Bool) (key : ℕ) (wq : MemoryVisitWorkQueue Bucket)
      → Inv urls x wq
      → Returns (Inv urls x) (promote_from x done key wq)
  unfolding promote_from
  promote_from-Returns done key wq v = elim (Option-cases (lookup key wq.hqueues)) [
    | inl missing ↦ rw (missing, promote_from) v
    | inr (hq, there) ↦
        let s = All-lookup (Entry urls x) key wq.hqueues hq v.hosts there in
        rw (there, promote_from)
          (Returns-bind (Moved key) (Inv urls x) (promote none done hq.queue wq.dqueue) _
            (promote-Moved key done hq.queue wq.dqueue s.fits s.sorted v.default_fits)
            λ r moved. record {
              default_fits = moved.target_fits;
              hosts =
                  All-insert (Entry urls x) key _ wq.hqueues
                    (release-IsSound key hq r.0 r.2 s moved.source_fits moved.source_sorted)
                    v.hosts;
            })
  ]

  choose-Returns :
      (done : Bool) (immediate : List ℕ) (wq : MemoryVisitWorkQueue Bucket)
      → Inv urls x wq
      → Returns (Inv urls x) (choose x done immediate wq)
  unfolding choose
  choose-Returns done immediate wq v =
      Returns-bind (λ _. Unit {0}) (Inv urls x) (pick ((wq.next + 1) % 2 ^ 32) (length immediate)) _
        (Returns-any _)
        λ i _.
          Returns-bind (λ _. Unit {0}) (Inv urls x) (get_elem? immediate i) _ (Returns-any _)
            λ key _.
              promote_from-Returns done key _
                (record { default_fits = v.default_fits; hosts = v.hosts })

  pub settle-Returns :
      (now : ℕ) (done : Bool) (found : Candidates Bucket) (wq : MemoryVisitWorkQueue Bucket)
      → Inv urls x wq
      → Returns (Inv urls x) (settle x now done found wq)
  unfolding settle
  settle-Returns now done found wq v = elim (Bool-cases (length found.immediate == 0)) [
    | inl idle ↦ rw idle (record { default_fits = v.default_fits; hosts = v.hosts })
    | inr some_ready ↦ rw some_ready (choose-Returns done found.immediate wq v)
  ]

  pub scan-Inv :
      (now : ℕ) (wq : MemoryVisitWorkQueue Bucket) → Inv urls x wq → Inv urls x (scan x now wq).1
  unfolding scan
  scan-Inv now wq v = record {
    default_fits = v.default_fits;
    hosts = candidates_from-Entry now none wq.hqueues v.hosts;
  }
