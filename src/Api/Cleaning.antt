-- ===== src/Api/Cleaning.antt =====
-- What GetURLs(true) does to the URLs of a request.
use tobey.Common.{
  ℕ, String, suc, zero, ◌+◌, ◌-◌, ◌≤◌, ◌<◌, ◌≡◌, ◌∙◌, refl, sym, ap, List, [], ◌∷◌, ◌++◌, true,
  false, none, some, ltb, arith, inl, inr, Option-cases, Bool-cases, set, length, length-append,
  length-set, map, All, is_some, ltb→lt, lt→ltb, string_eq,
}
use tobey.Url.{Url, UrlLib}
use tobey.Api.{Request, all_urls, delete_at, take, at, without_user, clean, get_urls}

at-set : (us : List String) (i j : ℕ) (v : String) → i < j → at (set us i v) j ≡ at us j
at-set [] i j v h = refl
at-set (u ∷ us) zero (suc j) v h = refl
at-set (u ∷ us) (suc i) (suc j) v h = at-set us i j v (omega arith)
at-set (u ∷ us) zero zero v h = ground arith
at-set (u ∷ us) (suc i) zero v h = ground arith

at-length : (done us : List String) (u : String) → at (done ++ u ∷ us) (length done) ≡ u
at-length [] us u = refl
at-length (d ∷ done) us u = at-length done us u

set-length :
    (done us : List String) (u v : String)
    → set (done ++ u ∷ us) (length done) v ≡ (done ++ v ∷ []) ++ us
set-length [] us u v = refl
set-length (d ∷ done) us u v = ap (λ vs. d ∷ vs) (set-length done us u v)

take-length : (us : List String) → take (length us) us ≡ us
take-length [] = refl
take-length (u ∷ us) = ap (λ vs. u ∷ vs) (take-length us)

length-snoc : (us : List String) (u : String) → length (us ++ u ∷ []) ≡ suc (length us)
length-snoc [] u = refl
length-snoc (v ∷ us) u = ap suc (length-snoc us u)

append_nil : (us : List String) → us ++ [] ≡ us
append_nil [] = refl
append_nil (u ∷ us) = ap (λ vs. u ∷ vs) (append_nil us)

append_assoc : (us vs ws : List String) → (us ++ vs) ++ ws ≡ us ++ (vs ++ ws)
append_assoc [] vs ws = refl
append_assoc (u ∷ us) vs ws = ap (λ zs. u ∷ zs) (append_assoc us vs ws)

module _ (lib : UrlLib) where
  clean-bad :
      (k i : ℕ) (array : List String) (len : ℕ)
      → i < len
      → lib.parse (at array i) ≡ none
      → clean lib (suc k) i array len ≡ clean lib k (suc i) (delete_at array i) (len - 1)
  unfolding clean
  clean-bad k i array len h bad = rw (clean, lt→ltb i len h, bad)

  clean-good :
      (k i : ℕ) (array : List String) (len : ℕ) (p : Url)
      → i < len
      → lib.parse (at array i) ≡ some p
      → clean lib (suc k) i array len ≡ clean lib k (suc i) (set array i (without_user lib p)) len
  unfolding clean
  clean-good k i array len p h ok = rw (clean, lt→ltb i len h, ok)

  clean-out :
      (k i : ℕ) (array : List String) (len : ℕ)
      → ltb i len ≡ false
      → clean lib (suc k) i array len ≡ none
  unfolding clean
  clean-out k i array len h = rw (clean, h)

  -- Once a place is lost, the loop runs out of the places that are left.
  clean-short :
      (k i : ℕ) (array : List String) (len : ℕ)
      → 0 < k
      → len < i + k
      → clean lib k i array len ≡ none
  clean-short zero i array len more h = ground arith
  clean-short (suc k) i array len more h = elim (Bool-cases (ltb i len)) [
    | inr out ↦ clean-out k i array len out
    | inl inside ↦ elim (Option-cases (lib.parse (at array i))) [
      | inl bad ↦
          clean-bad k i array len (ltb→lt i len inside) bad
          ∙ clean-short k (suc i) (delete_at array i) (len - 1) (ground arith) (ground arith)
      | inr (p, ok) ↦
          clean-good k i array len p (ltb→lt i len inside) ok
          ∙ clean-short k (suc i) (set array i (without_user lib p)) len (ground arith)
              (ground arith)
    ]
  ]

  clean-none :
      (k i j : ℕ) (array : List String) (len : ℕ)
      → i ≤ j
      → suc j < len
      → len ≡ i + k
      → lib.parse (at array j) ≡ none
      → clean lib k i array len ≡ none
  clean-none zero i j array len from h places bad = ground arith
  clean-none (suc k) i j array len from h places bad =
      elim (Option-cases (lib.parse (at array i))) [
        | inl also ↦
            clean-bad k i array len (omega arith) also
            ∙ clean-short k (suc i) (delete_at array i) (len - 1) (omega arith) (omega arith)
        | inr (p, ok) ↦ elim (Bool-cases (ltb i j)) [
          | inl before ↦
              clean-good k i array len p (omega arith) ok
              ∙ clean-none k (suc i) j (set array i (without_user lib p)) len (ltb→lt i j before) h
                  (omega arith)
                  (ap lib.parse (at-set array i j (without_user lib p) (ltb→lt i j before)) ∙ bad)
          | inr at_last ↦
              let same : i ≡ j = ground arith in
              cc (sym ok ∙ ap (λ n. lib.parse (at array n)) same ∙ bad)
        ]
      ]

  abbrev pub cleaned : String → String
  cleaned u = elim (lib.parse u) [ none ↦ u | some p ↦ lib.render (record p { user = none }) ]

  clean-all :
      (done todo array : List String) (i len : ℕ)
      → array ≡ done ++ todo
      → i ≡ length done
      → len ≡ length array
      → All (λ u. is_some (lib.parse u) ≡ true) todo
      → clean lib (length todo) i array len ≡ some (done ++ map cleaned todo)
  unfolding clean
  clean-all done [] array i len all at_end whole h =
      ap some (ap (λ n. take n array) whole ∙ take-length array ∙ all)
  clean-all done (u ∷ us) array i len all here whole h = elim (Option-cases (lib.parse u)) [
    | inl bad ↦ cc (rw bad at h.0)
    | inr (p, parsed) ↦
        let v = without_user lib p in
        let same : cleaned u ≡ v = rw (parsed, cleaned) in
        let there : at array i ≡ u = rw (all, here) (at-length done us u) in
        let inside : i < len = rw (whole, all, here, length-append done (u ∷ us)) (omega arith) in
        let next : set array i v ≡ (done ++ v ∷ []) ++ us =
          rw (all, here) (set-length done us u v) in
        clean-good (length us) i array len p inside (ap lib.parse there ∙ parsed)
        ∙ clean-all (done ++ v ∷ []) us (set array i v) (suc i) len next
            (ap suc here ∙ sym (length-snoc done v)) (whole ∙ sym (length-set array i v)) h.1
        ∙ ap some (
            append_assoc done (v ∷ []) (map cleaned us)
            ∙ ap (λ z. done ++ z ∷ map cleaned us) (sym same))
  ]

  -- If every URL of a request parses, cleaning yields them in order, each without its user info.
  pub get_urls-cleaned :
      (req : Request)
      → All (λ u. is_some (lib.parse u) ≡ true) (all_urls req)
      → get_urls lib true req ≡ some (map cleaned (all_urls req))
  unfolding get_urls
  get_urls-cleaned req h =
      clean-all [] (all_urls req) (all_urls req) 0 (length (all_urls req)) refl refl refl h

  -- If a URL other than the last does not parse, cleaning panics.
  pub get_urls_panics :
      (req : Request) (j : ℕ)
      → suc j < length (all_urls req)
      → lib.parse (at (all_urls req) j) ≡ none
      → get_urls lib true req ≡ none
  unfolding get_urls
  get_urls_panics req j h bad =
      clean-none (length (all_urls req)) 0 j (all_urls req) (length (all_urls req)) (omega arith) h
        (omega arith) bad
