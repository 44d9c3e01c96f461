-- ===== src/Observe.antt =====
-- observe.go and otel.go: the pulse of visits, a counter that a ticker reads and resets while
-- visitors count, and what telemetry is started with. The constructors of the OpenTelemetry packages
-- are parameters, as is fmt's rendering of a value.
pub mod Laws
use tobey.Common.{
  ℕ, zero, suc, ◌+◌, ◌-◌, ◌%◌, ◌^◌, String, List, [], ◌∷◌, ◌++◌, map, Bool, true, false, not, ◌&&◌,
  Option, none, some, if◌then◌else◌, ltb, ◌==◌, string_eq,
}
use tobey.Common.Int.{ℤ, pos, negsuc}
use tobey.Common.Dict.{lookup, insert}
use tobey.Failure.{Error}

-- An int32 is its bit pattern; int(v) of it.
abbrev pub int32_value : ℕ → ℤ
int32_value w = if ltb w (2 ^ 31) then pos w else negsuc (2 ^ 32 - w - 1)

-- PulseVisitTxns, the `v` of the goroutine of startPulse between its load and its store, and the
-- numbers that were posted, the last one first.
pub record Pulse : Type 0 where
  pub visit_txns : ℕ  -- int32
  pub loaded : Option ℕ
  pub posted : List ℤ

abbrev pub new_pulse : Pulse
new_pulse = record { visit_txns = 0; loaded = none; posted = [] }

-- What the visitors and the ticker's goroutine do, an atomic operation at a time.
pub data Beat : Type 0 where
  visit load store : Beat

-- atomic.AddInt32 in process
unfoldable pub count_visit : Pulse → Pulse
count_visit p = record p { visit_txns = (p.visit_txns + 1) % 2 ^ 32 }

unfoldable pub load_txns : Pulse → Pulse
load_txns p = record p { loaded = some p.visit_txns }

-- The store and the post; the goroutine does not come here without a load.
unfoldable pub store_txns : Pulse → Pulse
store_txns p = elim p.loaded [
  | none ↦ p
  | some v ↦ record { visit_txns = 0; loaded = none; posted = int32_value v ∷ p.posted }
]

unfoldable pub beat : Beat → Pulse → Pulse
unfolding count_visit load_txns store_txns
beat visit p = count_visit p
beat load p = load_txns p
beat store p = store_txns p

unfoldable pub beats : List Beat → Pulse → Pulse
unfolding beat
beats [] p = p
beats (b ∷ bs) p = beats bs (beat b p)

-- MapCarrierRabbitmq, whose values have any type V.
module _ {V : Type 0} where
  -- `show` renders the value under a key, or its absence.
  unfoldable pub carrier_get : (Option V → String) → String → List (String × V) → String
  unfolding lookup
  carrier_get show key c = show (lookup key c)

  unfoldable pub carrier_set : String → V → List (String × V) → List (String × V)
  unfolding insert
  carrier_set key value c = insert key value c

  unfoldable pub carrier_keys : List (String × V) → List String
  carrier_keys c = map (λ e. e.0) c

-- getEnvString of newTraceProvider
unfoldable pub env_string : (String → String) → String → String → String
env_string env key default_val = if env key == "" then default_val else env key

-- Each constructor with its error; the resource is made with the service's name.
pub record OtelLib : Type 0 where
  pub resource : String → Option Error
  pub trace_exporter : Option Error
  pub metric_exporter : Option Error

abbrev or_else : Option Error → Option Error → Option Error
or_else (some err) later = some err
or_else none later = later

unfoldable pub new_trace_provider : OtelLib → (String → String) → Option Error
unfolding env_string
new_trace_provider x env =
    or_else (x.resource (env_string env "OTEL_SERVICE_NAME" "tobey")) x.trace_exporter

unfoldable pub new_meter_provider : OtelLib → Option Error
new_meter_provider x = x.metric_exporter

-- What the returned function shuts down.
pub data Provider : Type 0 where
  tracer_provider meter_provider : Provider

abbrev wants_traces : Bool → (String → String) → Bool
wants_traces use_tracing env = use_tracing && not (env "OTEL_EXPORTER_OTLP_TRACES_ENDPOINT" == "")

abbrev wants_metrics : Bool → (String → String) → Bool
wants_metrics use_metrics env = use_metrics && not (env "OTEL_EXPORTER_OTLP_METRICS_ENDPOINT" == "")

abbrev start_metrics :
    Bool → OtelLib → (String → String) → List Provider → List Provider × Option Error
start_metrics use_metrics x env started =
    if wants_metrics use_metrics env
    then elim (new_meter_provider x) [
      | some err ↦ (started, some err)
      | none ↦ (started ++ meter_provider ∷ [], none)
    ]
    else (started, none)

-- StartOTel: the providers that are set up, and the error.
unfoldable pub start_otel : Bool → Bool → OtelLib → (String → String) → List Provider × Option Error
unfolding new_trace_provider new_meter_provider
start_otel use_tracing use_metrics x env =
    if wants_traces use_tracing env
    then elim (new_trace_provider x env) [
      | some err ↦ ([], some err)
      | none ↦ start_metrics use_metrics x env (tracer_provider ∷ [])
    ]
    else start_metrics use_metrics x env []
