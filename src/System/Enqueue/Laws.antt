-- ===== src/System/Enqueue/Laws.antt =====
-- What enqueuing publishes and marks as seen.
use mathlib.Core.Option.{some-injective}
use mathlib.Core.List.{Memᴰ}
use tobey.Common.{
  String, List, [], ◌∷◌, ◌++◌, Option, Bool, true, false, not, none, some, ◌>>=◌, is_some, ◌≡◌, ◌∙◌,
  refl, sym, ap, subst, inl, inr, arith, Bool-cases, >>=-eq-some, ◌&&◌, ◌||◌, ◌==◌, string_eq,
  eq_refl, eq_iff,
}
use tobey.Run.{Run}
use tobey.Store.{has_seen_url, saw_url}
use tobey.Store.Laws.{has_seen_url-saw_url}
use tobey.Ctrlq.Job.{Carrier}
use tobey.Ctrlq.Memory.{publish}
use tobey.Collector.{Collector, CollectorLib, is_visit_allowed}
use tobey.System.{Libs, Tobey}
use tobey.System.Enqueue.{
  is_probably_sitemap, is_probably_siteindex, is_seen, queued, enqueue, step, start,
}

pub or_true : (b : Bool) → (b || true) ≡ true
or_true b = ground arith

module _ (x : Libs) (y : CollectorLib) where
  open x use {urls, rates}

  -- A URL that is published is marked as seen, and no other.
  pub queued-seen :
      (run : Run) (carrier : Carrier) (url : String) (w w' : Tobey x)
      → queued x y run carrier url w ≡ some w'
      → w'.runs.store ≡ saw_url run.id url w.runs.store
  queued-seen run carrier url w w' e =
      let (q, _, rest) = >>=-eq-some (publish urls rates w.now carrier run.id url w.queue) _ e in
      sym (ap (λ (v : Tobey x). v.runs.store) (some-injective _ w' rest))

  pub skipped :
      (c : Collector) (run : Run) (carrier : Carrier) (url : String) (w : Tobey x)
      → (is_some (is_visit_allowed urls y c url) || is_seen x y run url w) ≡ true
      → enqueue x y c run carrier url w ≡ some w
  unfolding enqueue
  skipped c run carrier url w e = ground arith

  pub not_skipped :
      (c : Collector) (run : Run) (carrier : Carrier) (url : String) (w : Tobey x)
      → (is_some (is_visit_allowed urls y c url) || is_seen x y run url w) ≡ false
      → enqueue x y c run carrier url w ≡ queued x y run carrier url w
  unfolding enqueue
  not_skipped c run carrier url w e = ground arith

  same_key :
      (b : Bool) (run r : Run) (url u : String) (w : Tobey x)
      → (b || is_seen x y run url w) ≡ true
      → is_seen x y r u w ≡ ((not b && (run.id == r.id && url == u)) || is_seen x y r u w)
  same_key true run r url u w e = refl
  same_key false run r url u w e = elim (Bool-cases (run.id == r.id && url == u)) [
    | inr other ↦ rw other
    | inl same ↦
        let id : run.id ≡ r.id = (eq_iff run.id r.id).0 (ground arith) in
        let at : url ≡ u = (eq_iff url u).0 (ground arith) in
        let seen : is_seen x y r u w ≡ true =
          subst (λ v. is_seen x y r v w ≡ true) at
            (subst (λ i. has_seen_url i url w.runs.store ≡ true) id e) in
        rw (same, seen)
  ]

  -- After a URL was enqueued for a run, the URLs that are seen are those seen before and, if its
  -- visit is allowed, that one.
  pub enqueue-seen :
      (c : Collector) (run r : Run) (carrier : Carrier) (url u : String) (w w' : Tobey x)
      → enqueue x y c run carrier url w ≡ some w'
      → is_seen x y r u w' ≡ (
          (not (is_some (is_visit_allowed urls y c url)) && (run.id == r.id && url == u))
          || is_seen x y r u w)
  enqueue-seen c run r carrier url u w w' e =
      let refused = is_some (is_visit_allowed urls y c url) in
      elim (Bool-cases (refused || is_seen x y run url w)) [
        | inl skip ↦
            let same : w ≡ w' = some-injective w w' (sym (skipped c run carrier url w skip) ∙ e) in
            subst
              (λ (v : Tobey x).
                is_seen x y r u v
                ≡ ((not refused && (run.id == r.id && url == u)) || is_seen x y r u w))
              same (same_key refused run r url u w skip)
        | inr publish ↦
            let stored =
              queued-seen run carrier url w w'
                (sym (not_skipped c run carrier url w publish) ∙ e) in
            let allowed : refused ≡ false = ground arith in
            rw (stored, allowed, has_seen_url-saw_url run.id url r.id u w.runs.store)
      ]

  -- If enqueuing a URL for a run returns, enqueuing it again for that run, directly afterwards and
  -- with whatever tracing information, changes nothing: it is published once.
  pub enqueue_idempotent :
      (c : Collector) (run : Run) (carrier again : Carrier) (url : String) (w w' : Tobey x)
      → enqueue x y c run carrier url w ≡ some w'
      → enqueue x y c run again url w' ≡ some w'
  enqueue_idempotent c run carrier again url w w' e =
      skipped c run again url w' (elim (Bool-cases (is_some (is_visit_allowed urls y c url))) [
        | inl refused ↦ rw refused
        | inr allowed ↦
            rw (enqueue-seen c run run carrier url url w w' e, allowed, eq_refl run.id, eq_refl url)
      ])

  abbrev pub is_for_sitemaps : String → Bool
  is_for_sitemaps u = is_probably_sitemap u || is_probably_siteindex u

  abbrev pub KeepsSeen : Run → (Tobey x → Option (Tobey x)) → Type 0
  KeepsSeen run f =
      (v : String) (w w' : Tobey x)
      → f w ≡ some w'
      → is_seen x y run v w ≡ true
      → is_seen x y run v w' ≡ true

  pub enqueue-KeepsSeen :
      (c : Collector) (run : Run) (carrier : Carrier) (url : String)
      → KeepsSeen run (enqueue x y c run carrier url)
  enqueue-KeepsSeen c run carrier url v w w' e seen =
      rw (enqueue-seen c run run carrier url v w w' e, seen) (or_true _)

  module _ (c : Collector) (run : Run) (carrier : Carrier) where
    SeenAfter : String → Tobey x × List String → Type 0
    SeenAfter v (w, drained) = is_seen x y run v w ≡ true

    step_of_page :
        (u : String) (w : Tobey x)
        → is_for_sitemaps u ≡ false
        → step x y c run carrier u w ≡ (enqueue x y c run carrier u w >>= λ w1. some (w1, []))
    unfolding step
    step_of_page u w ours = rw (ours, step)

    step-KeepsSeen :
        (u v : String) (w : Tobey x) (r : Tobey x × List String)
        → step x y c run carrier u w ≡ some r
        → is_seen x y run v w ≡ true
        → SeenAfter v r
    unfolding step SeenAfter
    step-KeepsSeen u v w r e seen = elim (Bool-cases (is_for_sitemaps u)) [
      | inl theirs ↦
          subst (SeenAfter v) (some-injective (w, u ∷ []) r (sym (rw (theirs, step)) ∙ e)) seen
      | inr ours ↦
          let (w1, put, over) =
            >>=-eq-some (enqueue x y c run carrier u w) _ (sym (step_of_page u w ours) ∙ e) in
          subst (SeenAfter v) (some-injective (w1, []) r over)
            (enqueue-KeepsSeen c run carrier u v w w1 put seen)
    ]

    step-seen :
        (u : String) (w : Tobey x) (r : Tobey x × List String)
        → is_for_sitemaps u ≡ false
        → is_visit_allowed urls y c u ≡ none
        → step x y c run carrier u w ≡ some r
        → SeenAfter u r
    unfolding step SeenAfter
    step-seen u w r ours allowed e =
        let (w1, put, over) =
          >>=-eq-some (enqueue x y c run carrier u w) _ (sym (step_of_page u w ours) ∙ e) in
        let seen : is_seen x y run u w1 ≡ true =
          rw (enqueue-seen c run run carrier u u w w1 put, allowed, eq_refl run.id, eq_refl u) in
        subst (SeenAfter u) (some-injective (w1, []) r over) seen

    start-KeepsSeen :
        (us : List String) (v : String) (w : Tobey x) (r : Tobey x × List String)
        → start x y c run carrier us w ≡ some r
        → is_seen x y run v w ≡ true
        → SeenAfter v r
    unfolding start SeenAfter
    start-KeepsSeen [] v w r e seen = subst (SeenAfter v) (some-injective (w, []) r e) seen
    start-KeepsSeen (u ∷ us) v w r e seen =
        let ((w1, own), first, e1) = >>=-eq-some (step x y c run carrier u w) _ e in
        let ((w2, rest), later, over) = >>=-eq-some (start x y c run carrier us w1) _ e1 in
        subst (SeenAfter v) (some-injective (w2, own ++ rest) r over)
          (start-KeepsSeen us v w1 (w2, rest) later (step-KeepsSeen u v w (w1, own) first seen))

    -- When the first loop of Start is through, each of the URLs that is not probably a sitemap and
    -- whose visit is allowed is marked as seen.
    pub start_covers :
        (us : List String) (u : String) (w w' : Tobey x) (drained : List String)
        → start x y c run carrier us w ≡ some (w', drained)
        → Memᴰ u us
        → is_for_sitemaps u ≡ false
        → is_visit_allowed urls y c u ≡ none
        → is_seen x y run u w' ≡ true
    unfolding start SeenAfter
    start_covers [] u w w' drained e there ours allowed = elim there [ ]
    start_covers (v ∷ us) u w w' drained e (Memᴰ.head same) ours allowed =
        let ((w1, own), first, e1) = >>=-eq-some (step x y c run carrier v w) _ e in
        let ((w2, rest), later, over) = >>=-eq-some (start x y c run carrier us w1) _ e1 in
        subst (SeenAfter u) (some-injective (w2, own ++ rest) (w', drained) over) (
          start-KeepsSeen us u w1 (w2, rest) later
            (step-seen u w (w1, own) ours allowed
              (ap (λ z. step x y c run carrier z w) same ∙ first)))
    start_covers (v ∷ us) u w w' drained e (Memᴰ.tail there) ours allowed =
        let ((w1, own), first, e1) = >>=-eq-some (step x y c run carrier v w) _ e in
        let ((w2, rest), later, over) = >>=-eq-some (start x y c run carrier us w1) _ e1 in
        subst (SeenAfter u) (some-injective (w2, own ++ rest) (w', drained) over)
          (start_covers us u w1 w2 rest later there ours allowed)
