-- ===== src/Sitemaps/Drain/Keeps.antt =====
-- Invariants of a drain, from those of the fetching of a sitemap and of the taking of a URL.
use mathlib.Core.Option.{some-injective}
use tobey.Common.{
  ℕ, zero, suc, String, List, [], ◌∷◌, Option, none, some, ◌⊎◌, inl, inr, ◌≡◌, subst, Bool-cases,
  Option-cases, >>=-eq-some, ◌==◌, nat_eq,
}
use tobey.Failure.{Error}
use tobey.System.Enqueue.{is_probably_sitemap, is_probably_siteindex}
use tobey.Sitemaps.Drain.{DrainLib, each, resolve_answer, resolve, drain}

module _ {W : Type 0} (P : W → Type 0) where
  -- Where a consumer answers, `P` is kept.
  abbrev pub Keeps : (String → W → Option (W × Option Error)) → Type 0
  Keeps c = (loc : String) (w : W) (r : W × Option Error) → c loc w ≡ some r → P w → P r.0

  ends_in : (w : W) (e : Option Error) (r : W × Option Error) → some (w, e) ≡ some r → P w → P r.0
  ends_in w e r same h = subst (λ (q : W × Option Error). P q.0) (some-injective (w, e) r same) h

  each-Keeps :
      (c : String → W → Option (W × Option Error))
      → Keeps c
      → (locs : List String) (end : Option Error) (w : W) (r : W × Option Error)
      → each c locs end w ≡ some r
      → P w
      → P r.0
  unfolding each
  each-Keeps c k [] end w r e h = ends_in w end r e h
  each-Keeps c k (loc ∷ locs) end w r e h = elim (Option-cases (c loc w)) [
    | inl bad ↦ cc (rw bad at e)
    | inr ((w1, some err), called) ↦ ends_in w1 (some err) r (rw called at e) (k loc w _ called h)
    | inr ((w1, none), called) ↦ each-Keeps c k locs end w1 r (rw called at e) (k loc w _ called h)
  ]

  module _ (x : DrainLib W) (takes : Keeps x.yieldu)
      (fetches : (u : String) (w : W) → P w → P (x.fetch u w).0) where
    answer-Keeps :
        (c : String → W → Option (W × Option Error))
        → Keeps c
        → (url : String) (w : W) (a : Error ⊎ (ℕ × String)) (r : W × Option Error)
        → resolve_answer x c url (w, a) ≡ some r
        → P w
        → P r.0
    unfolding resolve_answer
    answer-Keeps c k url w (inl err) r e h = ends_in w (some err) r e h
    answer-Keeps c k url w (inr (status, body)) r e h = elim (Bool-cases (status == 404)) [
      | inl gone ↦ ends_in w none r (rw gone at e) h
      | inr there ↦ elim (Bool-cases (is_probably_sitemap url)) [
        | inl plain ↦
            each-Keeps x.yieldu takes (x.parse body).0 (x.parse body).1 w r (rw (there, plain) at e)
              h
        | inr not_plain ↦ elim (Bool-cases (is_probably_siteindex url)) [
          | inl index ↦
              each-Keeps c k (x.parse_index body).0 (x.parse_index body).1 w r
                (rw (there, not_plain, index) at e) h
          | inr neither ↦ ends_in w none r (rw (there, not_plain, neither) at e) h
        ]
      ]
    ]

    resolve-Keeps : (depth : ℕ) → Keeps (resolve x depth)
    unfolding resolve
    resolve-Keeps zero url w r e h = cc e
    resolve-Keeps (suc depth) url w r e h = elim (Bool-cases (x.cancelled w)) [
      | inl over ↦ ends_in w none r (rw over at e) h
      | inr not_over ↦
          answer-Keeps (resolve x depth) (resolve-Keeps depth) url (x.fetch url w).0
            (x.fetch url w).1 r (rw not_over at e) (fetches url w h)
    ]

    pub drain-Keeps :
        (depth : ℕ) (url : String) (w w' : W) → drain x depth url w ≡ some w' → P w → P w'
    unfolding drain
    drain-Keeps depth url w w' e h =
        let ((w1, err), resolved, rest) = >>=-eq-some (resolve x depth url w) _ e in
        subst P (some-injective w1 w' rest) (resolve-Keeps depth url w (w1, err) resolved h)
