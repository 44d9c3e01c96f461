-- ===== src/Progress/Factorial.antt =====
-- The reporter of internal/progress/factorial.go, which sends updates to a service. JSON, the client and
-- the request are parameters.
use tobey.Common.{
  String, Bool, Option, none, some, if◌then◌else◌, ◌≡◌, refl, ap, sym, Bool-cases, inl, inr,
}
use tobey.Common.Text.{◌<>◌}
use tobey.Progress.{Update, Reporter, FactorialProgressUpdatePayload, factorial_payload}

pub record SendLib (S : Type 0) : Type 0 where
  -- json.Marshal, `none` on an error
  pub marshal : FactorialProgressUpdatePayload → Option String
  -- Whether http.NewRequestWithContext takes a URL.
  pub is_request_url : String → Bool
  -- A goroutine that posts a body to a URL; how that ends is logged only.
  pub go_post : String → String → S → S

module _ {S : Type 0} (x : SendLib S) (scheme host : String) where
  abbrev pub endpoint : String
  endpoint = scheme <> "://" <> host <> "/" <> "api/status/update"

  abbrev send : Option String → S → S × Option String
  send none s = (s, some "json")
  send (some body) s =
      if x.is_request_url endpoint then (x.go_post endpoint body s, none) else (s, some "request")

  -- FactorialReporter, with its With and its Call.
  unfoldable pub factorial_reporter : Reporter S
  unfolding factorial_payload
  factorial_reporter = record {
    stage = "crawler";
    call = λ pu s. send (x.marshal (factorial_payload pu)) s;
  }

  send-sent :
      (body : Option String) (s s' : S)
      → send body s ≡ (s', none)
      → (text : String) × ((body ≡ some text) × (s' ≡ x.go_post endpoint text s))
  send-sent none s s' e = cc (ap (λ p. p.1) e)
  send-sent (some body) s s' e = elim (Bool-cases (x.is_request_url endpoint)) [
    | inl fine ↦ (body, (refl, sym (ap (λ p. p.0) (rw fine at e))))
    | inr bad ↦ cc (ap (λ p. p.1) (rw bad at e))
  ]

  -- Where Call returns no error, one goroutine was started that posts the update's payload to the
  -- service.
  pub call_sends :
      (pu : Update) (s s' : S)
      → factorial_reporter.call pu s ≡ (s', none)
      → (text : String) × ((x.marshal (factorial_payload pu) ≡ some text)
          × (s' ≡ x.go_post endpoint text s))
  unfolding factorial_reporter
  call_sends pu s s' e = send-sent (x.marshal (factorial_payload pu)) s s' e
