-- ===== src/Sitemaps/Drain/Ends.antt =====
-- When the fetching of sitemaps comes to an end.
use tobey.Common.{
  ℕ, zero, suc, ◌+◌, ◌-◌, ◌<◌, String, List, [], ◌∷◌, true, false, Option, none, some, ◌==◌, nat_eq,
  ◌⊎◌, ap, ◌∙◌, ◌≡◌, refl, arith, All, All-mono, Bool-cases, Option-cases, inl, inr, is_some, subst,
}
use tobey.Failure.{Error}
use tobey.System.Enqueue.{is_probably_sitemap, is_probably_siteindex}
use tobey.Sitemaps.Drain.{DrainLib, each, resolve_answer, resolve}

abbrev Consumer : Type 0 → Type 0
Consumer W = String → W → Option (W × Option Error)

-- What the first consumer answers, the second answers too.
abbrev Grows : {W : Type 0} → Consumer W → Consumer W → Type 0
Grows {W} c d = (loc : String) (w : W) (r : W × Option Error) → c loc w ≡ some r → d loc w ≡ some r

module _ {W : Type 0} where
  each-Grows :
      (c d : Consumer W)
      → Grows c d
      → (locs : List String) (end : Option Error) (w : W) (r : W × Option Error)
      → each c locs end w ≡ some r
      → each d locs end w ≡ some r
  unfolding each
  each-Grows c d g [] end w r e = e
  each-Grows c d g (loc ∷ locs) end w r e = elim (Option-cases (c loc w)) [
    | inl bad ↦ cc (rw bad at e)
    | inr ((w1, some err), called) ↦ rw (g loc w _ called) (rw called at e)
    | inr ((w1, none), called) ↦
        rw (g loc w _ called) (each-Grows c d g locs end w1 r (rw called at e))
  ]

  -- A consumer that answers for every entry lets the loop end.
  each-returns :
      (c : Consumer W) (locs : List String) (end : Option Error)
      → All (λ loc. (w : W) → is_some (c loc w) ≡ true) locs
      → (w : W) → is_some (each c locs end w) ≡ true
  unfolding each
  each-returns c [] end h w = refl
  each-returns c (loc ∷ locs) end (here, there) w = elim (Option-cases (c loc w)) [
    | inl bad ↦ cc (rw bad at (here w))
    | inr ((w1, some err), called) ↦ rw called refl
    | inr ((w1, none), called) ↦ rw called (each-returns c locs end there w1)
  ]

module _ {W : Type 0} (x : DrainLib W) where
  answer-Grows :
      (c d : String → W → Option (W × Option Error))
      → Grows c d
      → (url : String) (a : W × (Error ⊎ (ℕ × String))) (r : W × Option Error)
      → resolve_answer x c url a ≡ some r
      → resolve_answer x d url a ≡ some r
  unfolding resolve_answer
  answer-Grows c d g url (w, inl err) r e = e
  answer-Grows c d g url (w, inr (status, body)) r e =
      ground (arith, each-Grows c d g (x.parse_index body).0 (x.parse_index body).1 w r)

  resolve-Grows : (depth : ℕ) → Grows (resolve x depth) (resolve x (suc depth))
  unfolding resolve
  resolve-Grows zero url w r e = cc e
  resolve-Grows (suc depth) url w r e = ground (
    arith,
    answer-Grows (resolve x depth) (resolve x (suc depth)) (resolve-Grows depth) url (x.fetch url w)
        r,
  )

  resolve_deeper :
      (more depth : ℕ) (url : String) (w : W) (r : W × Option Error)
      → resolve x depth url w ≡ some r
      → resolve x (more + depth) url w ≡ some r
  resolve_deeper zero depth url w r e = subst (λ d. resolve x d url w ≡ some r) (omega arith) e
  resolve_deeper (suc more) depth url w r e =
      subst (λ d. resolve x d url w ≡ some r) (omega arith)
        (resolve-Grows (more + depth) url w r (resolve_deeper more depth url w r e))

  -- The locations of an index rank below it.
  abbrev pub RanksBelow : (String → ℕ) → String → Error ⊎ (ℕ × String) → Type 0
  RanksBelow rank url (inl err) = Unit {0}
  RanksBelow rank url (inr (status, body)) = All (λ loc. rank loc < rank url) (x.parse_index body).0

  -- The function that takes URLs never panics.
  abbrev pub TakesAll : Type 0
  TakesAll = (u : String) (w : W) → is_some (x.yieldu u w) ≡ true

  all_answer :
      TakesAll → (locs : List String) → All (λ loc. (w : W) → is_some (x.yieldu loc w) ≡ true) locs
  all_answer calm [] = tt
  all_answer calm (loc ∷ locs) = (λ w. calm loc w, all_answer calm locs)

  answer-returns :
      TakesAll
      → (rank : String → ℕ) (c : String → W → Option (W × Option Error)) (url : String)
      → ((loc : String) → rank loc < rank url → (w : W) → is_some (c loc w) ≡ true)
      → (w : W) (a : Error ⊎ (ℕ × String))
      → (is_probably_siteindex url ≡ true → RanksBelow rank url a)
      → is_some (resolve_answer x c url (w, a)) ≡ true
  unfolding resolve_answer
  answer-returns calm rank c url h w (inl err) below = refl
  answer-returns calm rank c url h w (inr (status, body)) below =
      elim (Bool-cases (status == 404)) [
        | inl gone ↦ rw gone refl
        | inr there ↦ elim (Bool-cases (is_probably_sitemap url)) [
          | inl plain ↦
              rw (there, plain)
                (each-returns x.yieldu (x.parse body).0 (x.parse body).1
                  (all_answer calm (x.parse body).0) w)
          | inr not_plain ↦ elim (Bool-cases (is_probably_siteindex url)) [
            | inl index ↦
                rw (there, not_plain, index)
                  (each-returns c (x.parse_index body).0 (x.parse_index body).1
                    (All-mono _ _ (λ loc lt. h loc lt) (x.parse_index body).0 (below index)) w)
            | inr neither ↦ rw (there, not_plain, neither) refl
          ]
        ]
      ]

  resolve-returns :
      TakesAll
      → (rank : String → ℕ)
      → ((url : String) (w : W)
          → is_probably_siteindex url ≡ true
          → RanksBelow rank url (x.fetch url w).1)
      → (depth : ℕ) (url : String) → rank url < depth
      → (w : W) → is_some (resolve x depth url w) ≡ true
  unfolding resolve
  resolve-returns calm rank below zero url h w = elim h [ ]
  resolve-returns calm rank below (suc depth) url h w = elim (Bool-cases (x.cancelled w)) [
    | inl over ↦ rw over refl
    | inr not_over ↦ rw not_over (
        answer-returns calm rank (resolve x depth) url
          (λ loc lt v. resolve-returns calm rank below depth loc (omega arith) v) (x.fetch url w).0
          (x.fetch url w).1 (below url w))
  ]

  -- The fetching of sitemaps ends wherever indexes are not nested in circles: if the locations of
  -- every index that is fetched rank below it, and no URL that is taken panics, then the outcome for a
  -- URL is one and the same at every depth beyond its rank.
  pub resolve_ends :
      TakesAll
      → (rank : String → ℕ)
      → ((url : String) (w : W)
          → is_probably_siteindex url ≡ true
          → RanksBelow rank url (x.fetch url w).1)
      → (url : String) (w : W)
      → (r : W × Option Error) × ((depth : ℕ) → rank url < depth → resolve x depth url w ≡ some r)
  resolve_ends calm rank below url w = elim (Option-cases (resolve x (suc (rank url)) url w)) [
    | inl bad ↦
        cc (rw bad at (resolve-returns calm rank below (suc (rank url)) url (omega arith) w))
    | inr (r, known) ↦ (
      r,
      λ depth deep.
          subst (λ d. resolve x d url w ≡ some r) (omega arith)
            (resolve_deeper (depth - suc (rank url)) (suc (rank url)) url w r known),
    )
  ]

  answer_circles :
      (c : Consumer W) (url body : String) (locs : List String)
      → ((w : W) → c url w ≡ none)
      → is_probably_siteindex url ≡ true
      → is_probably_sitemap url ≡ false
      → (x.parse_index body).0 ≡ url ∷ locs
      → (w : W) (a : Error ⊎ (ℕ × String)) → a ≡ inr (200, body)
      → resolve_answer x c url (w, a) ≡ none
  unfolding resolve_answer each
  answer_circles c url body locs stuck index not_plain itself w a e =
      ap (λ b. resolve_answer x c url (w, b)) e ∙ rw (not_plain, index, itself, stuck w)

  -- It does not end where an index names itself first: while nothing is cancelled, and each fetch
  -- brings that index, no depth is enough.
  pub resolve_circles :
      (url body : String) (locs : List String)
      → is_probably_siteindex url ≡ true
      → is_probably_sitemap url ≡ false
      → ((w : W) → x.cancelled w ≡ false)
      → ((w : W) → (x.fetch url w).1 ≡ inr (200, body))
      → (x.parse_index body).0 ≡ url ∷ locs
      → (depth : ℕ) (w : W) → resolve x depth url w ≡ none
  unfolding resolve
  resolve_circles url body locs index not_plain going fetched itself zero w = refl
  resolve_circles url body locs index not_plain going fetched itself (suc depth) w = rw (going w) (
      answer_circles (resolve x depth) url body locs
        (resolve_circles url body locs index not_plain going fetched itself depth) index not_plain
        itself (x.fetch url w).0 (x.fetch url w).1 (fetched w))
