-- ===== src/Tests/Libs.antt =====
-- The parameters of the model, made concrete: URLs of http only, a token bucket that grants every
-- request after a delay, and a cache of one run.
use Prim.Native.Char.{code}
use mathlib.Core.Option.{some-injective}
use tobey.Common.{
  ℕ, String, ◌+◌, ◌-◌, ◌/◌, ◌≡◌, ◌≢◌, refl, subst, [], ◌∷◌, true, false, Option, none, some,
  is_some, arith, if◌then◌else◌, ◌==◌, nat_eq, string_eq, eq_refl, eq_iff, Bool-cases, inl, inr,
  leb,
}
use tobey.Common.Text.{◌<>◌, cut_prefix}
use tobey.Url.{Url, UrlLib}
use tobey.Host.{HashLib}
use tobey.Run.{Run}
use tobey.RunManager.{LruLib}
use tobey.Ctrlq.Limiter.{RateLib, Reservation}

unfoldable pub host_and_path : String → String × String
host_and_path String.[] = ("", "")
host_and_path (String.◌∷◌ c s) =
    let (host, path) = host_and_path s in
    if code c == b'/' then ("", String.◌∷◌ c s) else (String.◌∷◌ c host, path)

unfoldable pub parse : String → Option Url
unfolding host_and_path cut_prefix
parse u = elim (cut_prefix u "http://") [
  | none ↦ none
  | some rest ↦ some record {
    scheme = "http";
    user = none;
    host = (host_and_path rest).0;
    path = (host_and_path rest).1;
    raw_query = "";
  }
]

abbrev pub urls : UrlLib
urls = record {
  parse = parse;
  parse_request_uri = λ u. is_some (parse u);
  render = λ p. p.scheme <> "://" <> p.host <> p.path;
}

-- The limit, and the time of the next token.
abbrev pub Bucket : Type 0
Bucket = ℕ × ℕ

abbrev pub reserve_n : Bucket → ℕ → Reservation Bucket
reserve_n (r, t) now = record {
  granted = true;
  delay = t - now;
  rest = (r, (if leb now t then t else now) + 1_000_000_000_000_000_000 / r);
}

abbrev pub rates : RateLib
rates = record {
  Bucket = Bucket;
  new_limiter = λ r. (r, 0);
  limit = λ b. b.0;
  set_limit = λ b r. (r, b.1);
  reserve_n = reserve_n;
  limit-new_limiter = λ r. refl;
  limit-set_limit = λ b r. refl;
  limit-reserve_n = λ b now. refl;
}

abbrev pub cached : String → Option Run → Option Run
cached id none = none
cached id (some r) = if r.id == id then some r else none

abbrev pub evicted : Run → Option Run → Option Run
evicted r none = none
evicted r (some v) = if v.id == r.id then none else some v

pub cached-add : (r : Run) → cached r.id (some r) ≡ some r
cached-add r = rw (eq_refl r.id)

pub evicted-gone :
    (r v : Run) (c : Option Run)
    → evicted r c ≡ some v
    → (v.id ≢ r.id) × (cached v.id (some r) ≡ none)
evicted-gone r v none e = cc e
evicted-gone r v (some w) e = elim (Bool-cases (w.id == r.id)) [
  | inl same ↦ cc (rw same at e)
  | inr other ↦
      subst (λ (z : Run). (z.id ≢ r.id) × (cached z.id (some r) ≡ none))
        (some-injective w v (rw other at e)) (ground (arith, eq_iff w.id r.id, eq_iff r.id w.id))
]

abbrev pub lru : LruLib
lru = record {
  Cache = Option Run;
  empty = none;
  get = λ id c. (cached id c, c);
  add = λ r c. (some r, evicted r c);
  expire = λ c. (none, elim c [ none ↦ [] | some r ↦ r ∷ [] ]);
  get-get = λ id c. refl;
  get-add = λ r c. cached-add r;
  add-evicted = λ r v c. evicted-gone r v c;
}

abbrev pub hashes : HashLib
hashes = record { sum = λ b. b; show = λ ac. ac.username }

abbrev pub run_named : String → Run
run_named id = record {
  id = id;
  metadata = "";
  urls = "http://a.org/" ∷ [];
  auth_configs = [];
  allow_domains = "a.org" ∷ [];
  ignore_paths = [];
  user_agent = "tobey";
  result_reporter_dsn = "";
  output_content_only = false;
}

-- The value of an answer that is known to be there.
abbrev pub get_or {ℓ} : {A : Type ℓ} → A → Option A → A
get_or d none = d
get_or d (some a) = a

abbrev pub page : String
page = "http://a.org/"

abbrev pub page_url : Url
page_url = record { scheme = "http"; user = none; host = "a.org"; path = "/"; raw_query = "" }

pub page_parses : parse page ≡ some page_url
unfolding parse
page_parses = refl
