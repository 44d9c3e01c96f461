-- ===== src/System/Discovery.antt =====
-- What run.go's enqueue function publishes for a run in the course of a crawl: the URLs, in order,
-- and what other parts of the program do in between.
use tobey.Common.{
  String, List, [], ◌∷◌, Bool, true, false, Option, none, some, is_some, ◌≡◌, ◌∙◌, refl, sym, ap,
  inl, inr, arith, any, All, All-mono, Returns, Returns-any, Returns-bind, Option-cases, Bool-cases,
  ◌||◌, ◌==◌, string_eq, eq_refl,
}
use tobey.Run.{Run}
use tobey.Store.{has_seen_url}
use tobey.Store.Laws.{has_seen_url-saw_url}
use tobey.Ctrlq.Job.{Carrier, VisitJob}
use tobey.Ctrlq.Memory.{publish, republish}
use tobey.Collector.{Collector, CollectorLib, is_visit_allowed}
use tobey.System.{Libs, Tobey}
use tobey.System.Enqueue.{is_seen, queued, enqueue}
use tobey.System.Enqueue.Laws.{queued-seen, skipped, not_skipped, or_true}

either_one : (a b s : Bool) → elim a [ true ↦ true | false ↦ b ] || s ≡ (a || (b || s))
either_one true b s = refl
either_one false b s = refl

-- No URL is listed twice.
abbrev pub IsDistinct : List String → Type 0
IsDistinct [] = Unit
IsDistinct (u ∷ us) = (any (λ v. v == u) us ≡ false) × IsDistinct us

module _ (x : Libs) (y : CollectorLib) (c : Collector) (run : Run) (carrier : Carrier) where
  open x use {urls}

  -- From a world to a later one, with the URLs that were published for the run in between. What
  -- other parts do leaves the stored runs alone, and the number of the queue's last message, but for
  -- jobs that are tried again.
  pub data Discovers (w : Tobey x) : List String → Tobey x → Type 0 where
    start : Discovers w [] w
    elsewhere :
        {us : List String} {v : Tobey x} (v' : Tobey x)
        → v'.runs.store ≡ v.runs.store
        → v'.queue.next_id ≡ v.queue.next_id
        → Discovers w us v
        → Discovers w us v'
    retried :
        {us : List String} {v : Tobey x} (j : VisitJob) (v' : Tobey x)
        → v'.runs.store ≡ v.runs.store
        → republish urls x.rates j v.queue ≡ some v'.queue
        → Discovers w us v
        → Discovers w us v'
    found :
        {us : List String} {v : Tobey x} (u : String) (v' : Tobey x)
        → is_visit_allowed urls y c u ≡ none
        → is_seen x y run u v ≡ false
        → queued x y run carrier u v ≡ some v'
        → Discovers w us v
        → Discovers w (u ∷ us) v'

  -- The URLs are listed with the last one first.
  abbrev pub Discovery : Tobey x → Tobey x → Type 0
  Discovery w v = (us : List String) × Discovers w us v

  pub enqueue-Discovery :
      (w v : Tobey x) (u : String)
      → Discovery w v
      → Returns (Discovery w) (enqueue x y c run carrier u v)
  enqueue-Discovery w v u (us, d) =
      elim (Bool-cases (is_some (is_visit_allowed urls y c u) || is_seen x y run u v)) [
        | inl skip ↦ rw (skipped x y c run carrier u v skip) (us, d)
        | inr publishes ↦
            rw (not_skipped x y c run carrier u v publishes)
              (queued_discovery (allowed_of publishes) (unseen_of publishes))
      ]
    where
      none_of : {A : Type 0} (o : Option A) → is_some o ≡ false → o ≡ none
      none_of none e = refl
      none_of (some a) e = cc e

      allowed_of :
          (is_some (is_visit_allowed urls y c u) || is_seen x y run u v) ≡ false
          → is_visit_allowed urls y c u ≡ none
      allowed_of e = none_of (is_visit_allowed urls y c u) (ground arith)

      unseen_of :
          (is_some (is_visit_allowed urls y c u) || is_seen x y run u v) ≡ false
          → is_seen x y run u v ≡ false
      unseen_of e = ground arith

      queued_discovery :
          is_visit_allowed urls y c u ≡ none
          → is_seen x y run u v ≡ false
          → Returns (Discovery w) (queued x y run carrier u v)
      queued_discovery allowed unseen = elim (Option-cases (queued x y run carrier u v)) [
        | inl panics ↦ rw panics tt
        | inr (v', put) ↦ rw put (u ∷ us, found u v' allowed unseen put d)
      ]

  seen_when_queued :
      (p : String) (v' : Tobey x) (u : String) (v : Tobey x)
      → queued x y run carrier p v ≡ some v'
      → is_seen x y run u v' ≡ (p == u || is_seen x y run u v)
  seen_when_queued p v' u v put =
      rw
        (
          queued-seen x y run carrier p v v' put,
          has_seen_url-saw_url run.id p run.id u v.runs.store,
          eq_refl run.id,
        )
        refl

  -- The URLs that are seen later are those seen before and those that were published.
  pub Discovers-seen :
      (w w' : Tobey x) (us : List String) (u : String)
      → Discovers w us w'
      → is_seen x y run u w' ≡ (any (λ v. v == u) us || is_seen x y run u w)
  Discovers-seen w w' [] u start = refl
  Discovers-seen w w' us u (elsewhere {v} v' same number d) =
      ap (has_seen_url run.id u) same ∙ Discovers-seen w v us u d
  Discovers-seen w w' us u (retried {v} j v' same put d) =
      ap (has_seen_url run.id u) same ∙ Discovers-seen w v us u d
  Discovers-seen w w' (p ∷ us) u (found {v} p0 v' allowed unseen put d) =
      rw (seen_when_queued p v' u v put, Discovers-seen w v us u d)
        (sym (either_one (p == u) (any (λ q. q == u) us) (is_seen x y run u w)))

  -- Enqueuing a URL leaves the cache of runs alone.
  pub enqueue-entries :
      (w : Tobey x) (u : String)
      → Returns (λ (v : Tobey x). v.runs.entries ≡ w.runs.entries) (enqueue x y c run carrier u w)
  enqueue-entries w u =
      elim (Bool-cases (is_some (is_visit_allowed urls y c u) || is_seen x y run u w)) [
        | inl skip ↦ rw (skipped x y c run carrier u w skip) refl
        | inr publishes ↦ rw (not_skipped x y c run carrier u w publishes) (
            Returns-bind (λ _. Unit {0}) (λ (v : Tobey x). v.runs.entries ≡ w.runs.entries)
              (publish urls x.rates w.now carrier run.id u w.queue) _ (Returns-any _) λ q _. refl)
      ]

  -- What is known of a URL that was published in between.
  abbrev pub IsNew : Tobey x → Tobey x → String → Type 0
  IsNew w w' u =
      (is_visit_allowed urls y c u ≡ none)
      × (is_seen x y run u w ≡ false)
      × (is_seen x y run u w' ≡ true)

  store-IsNew :
      (w w' v : Tobey x) (us : List String)
      → w'.runs.store ≡ v.runs.store
      → All (IsNew w v) us
      → All (IsNew w w') us
  store-IsNew w w' v us same news =
      All-mono (IsNew w v) (IsNew w w')
        (λ u (allowed, before, after). (allowed, before, ap (has_seen_url run.id u) same ∙ after))
        us news

  unseen_before :
      (w v : Tobey x) (us : List String) (u : String)
      → Discovers w us v
      → is_seen x y run u v ≡ false
      → (any (λ p. p == u) us ≡ false) × (is_seen x y run u w ≡ false)
  unseen_before w v us u d unseen =
      let both = sym (Discovers-seen w v us u d) ∙ unseen in (ground arith, ground arith)

  pub Discovers-IsDistinct : (w w' : Tobey x) (us : List String) → Discovers w us w' → IsDistinct us
  Discovers-IsDistinct w w' [] start = tt
  Discovers-IsDistinct w w' us (elsewhere {v} v' same number d) = Discovers-IsDistinct w v us d
  Discovers-IsDistinct w w' us (retried {v} j v' same put d) = Discovers-IsDistinct w v us d
  Discovers-IsDistinct w w' (p ∷ us) (found {v} p0 v' allowed unseen put d) =
      ((unseen_before w v us p d unseen).0, Discovers-IsDistinct w v us d)

  pub Discovers-IsNew :
      (w w' : Tobey x) (us : List String) → Discovers w us w' → All (IsNew w w') us
  Discovers-IsNew w w' [] start = tt
  Discovers-IsNew w w' us (elsewhere {v} v' same number d) =
      store-IsNew w w' v us same (Discovers-IsNew w v us d)
  Discovers-IsNew w w' us (retried {v} j v' same put d) =
      store-IsNew w w' v us same (Discovers-IsNew w v us d)
  Discovers-IsNew w w' (p ∷ us) (found {v} p0 v' allowed unseen put d) = (
    (
      allowed,
      (unseen_before w v us p d unseen).1,
      rw (seen_when_queued p v' p v put, eq_refl p) refl,
    ),
    All-mono (IsNew w v) (IsNew w w')
        (λ u (ok, before, after).
          (ok, before, rw (seen_when_queued p v' u v put, after) (or_true (p == u))))
        us (Discovers-IsNew w v us d),
  )
