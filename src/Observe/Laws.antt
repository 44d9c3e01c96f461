-- ===== src/Observe/Laws.antt =====
-- What observe.go's ticker posts of the visits, and what otel.go starts.
use tobey.Common.{
  ℕ, zero, suc, ◌+◌, ◌%◌, ◌^◌, ◌<◌, ◌≡◌, ◌∙◌, refl, sym, ap, String, List, [], ◌∷◌, ◌++◌, All, Bool,
  true, false, Option, none, some, arith, ltb, Bool-cases, inl, inr, string_eq, ◌==◌, if◌then◌else◌,
  not, ◌&&◌, ◌||◌, is_some, Option-cases,
}
use mathlib.Core.List.{append-nil}
use tobey.Common.Int.{ℤ, pos}
use tobey.Failure.{Error}
use tobey.Common.Dict.{lookup, lookup-insert}
use tobey.Observe.{
  Pulse, Beat, visit, load, store, beat, beats, int32_value, carrier_get, carrier_set, OtelLib,
  Provider, tracer_provider, meter_provider, start_otel, new_trace_provider, new_meter_provider,
  start_metrics, wants_traces, wants_metrics,
}

abbrev pub visits : ℕ → List Beat
visits zero = []
visits (suc n) = visit ∷ visits n

-- A turn of the ticker: the visits since the turn before, and those that are counted between the
-- load of the counter and its store.
abbrev pub Turn : Type 0
Turn = ℕ × ℕ

abbrev pub beats_of : Turn → List Beat
beats_of (n, k) = visits n ++ (load ∷ (visits k ++ (store ∷ [])))

abbrev pub all_beats : List Turn → List Beat
all_beats [] = []
all_beats (t ∷ ts) = beats_of t ++ all_beats ts

-- The numbers of visits since the turn before, behind those that were posted already.
abbrev pub post_all : List Turn → List ℤ → List ℤ
post_all [] posted = posted
post_all (t ∷ ts) posted = post_all ts (pos t.0 ∷ posted)

pub beats-append : (bs cs : List Beat) (p : Pulse) → beats (bs ++ cs) p ≡ beats cs (beats bs p)
unfolding beats
beats-append [] cs p = refl
beats-append (b ∷ bs) cs p = beats-append bs cs (beat b p)

beats-visits :
    (n : ℕ) (p : Pulse)
    → p.visit_txns < 2 ^ 32
    → beats (visits n) p ≡ record p { visit_txns = (p.visit_txns + n) % 2 ^ 32 }
unfolding beats beat
beats-visits zero p small = ap (λ v. record p { visit_txns = v }) (omega arith)
beats-visits (suc n) p small =
    beats-visits n (beat visit p) (omega arith)
    ∙ ap (λ v. record p { visit_txns = v }) (omega arith)

small_value : (n : ℕ) → n < 2 ^ 31 → int32_value ((0 + n) % 2 ^ 32) ≡ pos n
small_value n small =
    let same : ◌≡◌ {A = ℕ} ((0 + n) % 2 ^ 32) n = omega arith in
    let fits : ltb n (2 ^ 31) ≡ true = ground arith in ap int32_value same ∙ rw fits refl

turn_posts :
    (t : Turn) (posted : List ℤ)
    → t.0 < 2 ^ 31
    → beats (beats_of t) (record { visit_txns = 0; loaded = none; posted = posted })
      ≡ record { visit_txns = 0; loaded = none; posted = pos t.0 ∷ posted }
unfolding beats beat
turn_posts (n, k) posted small =
    let start : Pulse = record { visit_txns = 0; loaded = none; posted = posted } in
    let counted : Pulse = record start { visit_txns = (0 + n) % 2 ^ 32 } in
    let read : Pulse = record counted { loaded = some ((0 + n) % 2 ^ 32) } in
    beats-append (visits n) (load ∷ (visits k ++ (store ∷ []))) start
    ∙ ap (beats (load ∷ (visits k ++ (store ∷ [])))) (beats-visits n start (omega arith))
    ∙ beats-append (visits k) (store ∷ []) read
    ∙ ap (beats (store ∷ [])) (beats-visits k read (omega arith))
    ∙ ap (λ v. record start { posted = v ∷ posted }) (small_value n small)

-- The ticker posts, turn by turn, the number of the visits since its turn before, if these are less
-- than 2 ^ 31 each; the visits that are counted between its load of the counter and its store of 0
-- are in none of these numbers, however many they are.
pub beats_posted :
    (ts : List Turn) (posted : List ℤ)
    → All (λ t. t.0 < 2 ^ 31) ts
    → beats (all_beats ts) (record { visit_txns = 0; loaded = none; posted = posted })
      ≡ record { visit_txns = 0; loaded = none; posted = post_all ts posted }
unfolding beats
beats_posted [] posted small = refl
beats_posted (t ∷ ts) posted (first, rest) =
    beats-append (beats_of t) (all_beats ts) _
    ∙ ap (beats (all_beats ts)) (turn_posts t posted first)
    ∙ beats_posted ts (pos t.0 ∷ posted) rest

-- A carrier answers for a key that was set what the value is rendered as, and for any other key what
-- it did before; for a key that it does not hold, the rendering of a missing value.
pub carrier_get-carrier_set :
    {V : Type 0} (show : Option V → String) (key other : String) (value : V) (c : List (String × V))
    → carrier_get show other (carrier_set key value c)
      ≡ (if key == other then show (some value) else carrier_get show other c)
unfolding carrier_get carrier_set
carrier_get-carrier_set show key other value c =
    ap show (lookup-insert key other value c) ∙ shown (key == other)
  where
    shown :
        (b : Bool)
        → show (if b then some value else lookup other c)
          ≡ (if b then show (some value) else show (lookup other c))
    shown true = refl
    shown false = refl

-- The ways in which StartOTel ends: what it started, which is what its return value shuts down, and
-- the error that kept it from more.
abbrev pub Started :
    Bool → Bool → OtelLib → (String → String) → List Provider × Option Error → Type 0
Started use_tracing use_metrics x env (started, err) =
    (started ≡ (
      (if wants_traces use_tracing env && not (is_some (new_trace_provider x env))
        then tracer_provider ∷ []
        else [])
      ++ (if wants_metrics use_metrics env
            && not (wants_traces use_tracing env && is_some (new_trace_provider x env))
            && not (is_some (new_meter_provider x))
          then meter_provider ∷ []
          else [])))
    × (is_some err ≡ (
        (wants_traces use_tracing env && is_some (new_trace_provider x env))
        || (wants_metrics use_metrics env && is_some (new_meter_provider x))))

meter_maybe : Bool → List Provider
meter_maybe b = if b then meter_provider ∷ [] else []

metrics_end :
    (use_metrics : Bool) (x : OtelLib) (env : String → String) (started : List Provider)
    → ((start_metrics use_metrics x env started).0
        ≡ started
          ++ meter_maybe (wants_metrics use_metrics env && not (is_some (new_meter_provider x))))
      × (is_some (start_metrics use_metrics x env started).1
          ≡ (wants_metrics use_metrics env && is_some (new_meter_provider x)))
unfolding meter_maybe
metrics_end use_metrics x env started = elim (Bool-cases (wants_metrics use_metrics env)) [
  | inr silent ↦ rw silent (sym (append-nil started), refl)
  | inl metrics ↦ elim (Option-cases (new_meter_provider x)) [
    | inl ok ↦ rw (metrics, ok) (refl, refl)
    | inr (err, bad) ↦ rw (metrics, bad) (sym (append-nil started), refl)
  ]
]

-- StartOTel starts a provider for traces if they are wanted and it can be made, and one for metrics
-- if they are wanted, it can be made and traces did not fail; there is an error if one that is
-- wanted cannot be made.
pub start_otel_ends :
    (use_tracing use_metrics : Bool) (x : OtelLib) (env : String → String)
    → Started use_tracing use_metrics x env (start_otel use_tracing use_metrics x env)
unfolding start_otel meter_maybe
start_otel_ends use_tracing use_metrics x env = elim (Bool-cases (wants_traces use_tracing env)) [
  | inl traces ↦ elim (Option-cases (new_trace_provider x env)) [
    | inr (err, bad) ↦
        rw (traces, bad, start_otel)
          (sym (ap meter_maybe (no_metrics (wants_metrics use_metrics env) _)), refl)
    | inl ok ↦ rw (traces, ok, start_otel) (metrics_end_after (tracer_provider ∷ []))
  ]
  | inr silent ↦ rw (silent, start_otel) (metrics_end_after [])
]
  where
    no_metrics : (b c : Bool) → (b && false && c) ≡ false
    no_metrics true c = refl
    no_metrics false c = refl

    past : (b c : Bool) → (b && true && c) ≡ (b && c)
    past true c = refl
    past false c = refl

    metrics_end_after :
        (started : List Provider)
        → ((start_metrics use_metrics x env started).0
            ≡ started
              ++ meter_maybe
                  (wants_metrics use_metrics env && true && not (is_some (new_meter_provider x))))
          × (is_some (start_metrics use_metrics x env started).1
              ≡ (wants_metrics use_metrics env && is_some (new_meter_provider x)))
    metrics_end_after started =
        let (all, err) = metrics_end use_metrics x env started in
        (
          all ∙ ap (λ b. started ++ meter_maybe b) (sym (past (wants_metrics use_metrics env) _)),
          err,
        )
