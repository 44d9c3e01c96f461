-- ===== src/Ctrlq/Promoter/Scanning.antt =====
-- What `candidates` finds, and what it leaves alone.
use mathlib.Core.List.{Memᴰ}
use native.Mathlib.Nat.{le_trans}
use tobey.Common.{
  ℕ, ◌≤◌, ◌<◌, ◌≡◌, ◌≢◌, refl, ap, inl, inr, List, [], ◌∷◌, map, true, false, Option, none, some,
  arith, length, All, Bool-cases, ltb, subst,
}
use tobey.Chan.{Chan}
use tobey.Ctrlq.Job.{VisitMessage}
use tobey.Ctrlq.Limiter.{RateLib, holds_reservation}
use tobey.Ctrlq.Controlled.{ControlledQueue, is_paused}
use tobey.Ctrlq.Promoter.{
  Verdict, skipped, paused, ready, check_queue, candidates_from, candidates, shorter, with_key,
}

shorter_of_some : (v : Verdict) (b : ℕ) → (c : ℕ) × (shorter v (some b) ≡ some c) × (c ≤ b)
shorter_of_some skipped b = (b, refl, omega arith)
shorter_of_some ready b = (b, refl, omega arith)
shorter_of_some (paused u) b = elim (Bool-cases (ltb u b)) [
  | inl less ↦ (u, ground arith, ground arith)
  | inr more ↦ (b, ground arith, ground arith)
]

shorter_of_paused :
    (u : ℕ) (best : Option ℕ) → (c : ℕ) × (shorter (paused u) best ≡ some c) × (c ≤ u)
shorter_of_paused u none = (u, refl, omega arith)
shorter_of_paused u (some b) = elim (Bool-cases (ltb u b)) [
  | inl less ↦ (u, ground arith, ground arith)
  | inr more ↦ (b, ground arith, ground arith)
]

with_key_of_idle : (k : ℕ) (v : Verdict) → v ≢ ready → with_key v k [] ≡ []
with_key_of_idle k skipped h = refl
with_key_of_idle k (paused u) h = refl
with_key_of_idle k ready h = absurd (h refl)

module _ (x : RateLib) where
  open x use {Bucket}

  -- A queue that may be promoted from: it has a message, is not paused, and holds a reservation.
  pub record IsReady (now : ℕ) (hq : ControlledQueue Bucket) : Type 0 where
    pub busy : 0 < length hq.queue.buffer
    pub awake : (is_paused hq now).0 ≡ false
    pub reserved : holds_reservation hq.limiter ≡ true

  check_queue-ready :
      (now : ℕ) (hq : ControlledQueue Bucket)
      → (check_queue x now hq).1 ≡ ready
      → IsReady now (check_queue x now hq).0
  unfolding check_queue
  check_queue-ready now hq e = ground arith

  -- A queue that is ready stays so and keeps its reservation until a message is promoted.
  pub check_queue_of_IsReady :
      (now : ℕ) (hq : ControlledQueue Bucket) → IsReady now hq → check_queue x now hq ≡ (hq, ready)
  unfolding check_queue
  check_queue_of_IsReady now hq r = ground arith

  pub check_queue-queue :
      (now : ℕ) (hq : ControlledQueue Bucket)
      → ((check_queue x now hq).0.queue ≡ hq.queue)
        × ((check_queue x now hq).0.id ≡ hq.id)
        × ((check_queue x now hq).0.is_adaptive ≡ hq.is_adaptive)
        × (hq.paused_until ≤ (check_queue x now hq).0.paused_until)
  unfolding check_queue
  check_queue-queue now hq = ground arith

  abbrev HasReady : ℕ → ℕ → List (ℕ × ControlledQueue Bucket) → Type 0
  HasReady now key m = (hq : ControlledQueue Bucket) × Memᴰ (key, hq) m × IsReady now hq

  HasReady-cons :
      (now k key : ℕ) (v : Verdict) (hq : ControlledQueue Bucket) (keys : List ℕ)
      (m : List (ℕ × ControlledQueue Bucket))
      → (v ≡ ready → IsReady now hq)
      → (Memᴰ key keys → HasReady now key m)
      → Memᴰ key (with_key v k keys)
      → HasReady now key ((k, hq) ∷ m)
  HasReady-cons now k key ready hq keys m r ih (Memᴰ.head e) =
      (hq, Memᴰ.head (ap (λ (j : ℕ). (j, hq)) e), r refl)
  HasReady-cons now k key ready hq keys m r ih (Memᴰ.tail h) =
      let (hq', at, good) = ih h in (hq', Memᴰ.tail at, good)
  HasReady-cons now k key skipped hq keys m r ih h =
      let (hq', at, good) = ih h in (hq', Memᴰ.tail at, good)
  HasReady-cons now k key (paused until) hq keys m r ih h =
      let (hq', at, good) = ih h in (hq', Memᴰ.tail at, good)

  candidates_from-ready :
      (now : ℕ) (best : Option ℕ) (m : List (ℕ × ControlledQueue Bucket)) (key : ℕ)
      → Memᴰ key (candidates_from x now best m).immediate
      → HasReady now key (candidates_from x now best m).hqueues
  unfolding candidates_from
  candidates_from-ready now best [] key h = elim h [ ]
  candidates_from-ready now best ((k, hq) ∷ m) key h =
      let (hq', verdict) = check_queue x now hq in
      HasReady-cons now k key verdict hq' _ _ (check_queue-ready now hq)
        (candidates_from-ready now (shorter verdict best) m key) h

  -- Every candidate has a message, is not paused, and holds a reservation.
  pub candidates-IsReady :
      (now : ℕ) (m : List (ℕ × ControlledQueue Bucket)) (key : ℕ)
      → Memᴰ key (candidates x now m).immediate
      → (hq : ControlledQueue Bucket) × Memᴰ (key, hq) (candidates x now m).hqueues × IsReady now hq
  unfolding candidates
  candidates-IsReady now m key h = candidates_from-ready now none m key h

  abbrev pub Mailbox : Type 0
  Mailbox = ℕ × Chan (Option VisitMessage)

  abbrev pub mailboxes : List (ℕ × ControlledQueue Bucket) → List Mailbox
  mailboxes = map λ e. (e.0, e.1.queue)

  candidates_from-mailboxes :
      (now : ℕ) (best : Option ℕ) (m : List (ℕ × ControlledQueue Bucket))
      → mailboxes (candidates_from x now best m).hqueues ≡ mailboxes m
  unfolding candidates_from
  candidates_from-mailboxes now best [] = refl
  candidates_from-mailboxes now best ((k, hq) ∷ m) =
      let (hq', verdict) = check_queue x now hq in
      rw ((check_queue-queue now hq).0, candidates_from-mailboxes now (shorter verdict best) m)

  candidates_from-least :
      (now b : ℕ) (m : List (ℕ × ControlledQueue Bucket))
      → (t : ℕ) × ((candidates_from x now (some b) m).shortest_pause_until ≡ some t) × (t ≤ b)
  unfolding candidates_from
  candidates_from-least now b [] = (b, refl, omega arith)
  candidates_from-least now b ((k, hq) ∷ m) =
      let (c, e, le) = shorter_of_some (check_queue x now hq).1 b in
      let (t, found, below) = candidates_from-least now c m in (t, rw e found, le_trans below le)

  candidates_from-paused :
      (now : ℕ) (best : Option ℕ) (m : List (ℕ × ControlledQueue Bucket)) (k : ℕ)
      (hq : ControlledQueue Bucket) (u : ℕ)
      → Memᴰ (k, hq) m
      → (check_queue x now hq).1 ≡ paused u
      → (t : ℕ) × ((candidates_from x now best m).shortest_pause_until ≡ some t) × (t ≤ u)
  unfolding candidates_from
  candidates_from-paused now best [] k hq u h e = elim h [ ]
  candidates_from-paused now best ((j, hq') ∷ m) k hq u (Memᴰ.head same) e =
      let e' : (check_queue x now hq').1 ≡ paused u =
        subst (λ (p : ℕ × ControlledQueue Bucket). (check_queue x now p.1).1 ≡ paused u) same e in
      let (c, eq, le) = shorter_of_paused u best in
      let (t, found, below) = candidates_from-least now c m in
      (t, rw (e', eq) found, le_trans below le)
  candidates_from-paused now best ((j, hq') ∷ m) k hq u (Memᴰ.tail h) e =
      candidates_from-paused now (shorter (check_queue x now hq').1 best) m k hq u h e

  -- The time to wait for is no later than the end of the pause of any queue that the round found
  -- paused, or paused itself.
  pub candidates-least :
      (now : ℕ) (m : List (ℕ × ControlledQueue Bucket)) (k : ℕ) (hq : ControlledQueue Bucket)
      (u : ℕ)
      → Memᴰ (k, hq) m
      → (check_queue x now hq).1 ≡ paused u
      → (t : ℕ) × ((candidates x now m).shortest_pause_until ≡ some t) × (t ≤ u)
  unfolding candidates
  candidates-least now m k hq u h e = candidates_from-paused now none m k hq u h e

  -- A round neither takes nor adds a message, a queue or a key.
  pub candidates-mailboxes :
      (now : ℕ) (m : List (ℕ × ControlledQueue Bucket))
      → mailboxes (candidates x now m).hqueues ≡ mailboxes m
  unfolding candidates
  candidates-mailboxes now m = candidates_from-mailboxes now none m

  check_queue_of_paused :
      (now : ℕ) (hq : ControlledQueue Bucket)
      → (is_paused hq now).0 ≡ true
      → ((check_queue x now hq).0 ≡ hq) × ((check_queue x now hq).1 ≢ ready)
  unfolding check_queue
  check_queue_of_paused now hq e = (ground arith, ground arith)

  candidates_from-all_paused :
      (now : ℕ) (best : Option ℕ) (m : List (ℕ × ControlledQueue Bucket))
      → All (λ e. (is_paused e.1 now).0 ≡ true) m
      → ((candidates_from x now best m).hqueues ≡ m)
        × ((candidates_from x now best m).immediate ≡ [])
  unfolding candidates_from
  candidates_from-all_paused now best [] h = (refl, refl)
  candidates_from-all_paused now best ((k, hq) ∷ m) (p, h) =
      let (same, idle) = check_queue_of_paused now hq p in
      let (rest, none_ready) =
        candidates_from-all_paused now (shorter (check_queue x now hq).1 best) m h in
      (rw (same, rest), rw none_ready (with_key_of_idle k (check_queue x now hq).1 idle))

  -- While every queue is paused a round has no candidate and does not touch a rate limiter.
  pub candidates-all_paused :
      (now : ℕ) (m : List (ℕ × ControlledQueue Bucket))
      → All (λ e. (is_paused e.1 now).0 ≡ true) m
      → ((candidates x now m).hqueues ≡ m) × ((candidates x now m).immediate ≡ [])
  unfolding candidates
  candidates-all_paused now m h = candidates_from-all_paused now none m h
