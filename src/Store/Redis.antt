-- ===== src/Store/Redis.antt =====
-- store_redis.go. The Redis client is a parameter, and so is JSON; keys do not expire meanwhile.
pub mod Keys
pub mod Laws
use text.Mathlib.TextLemmas.{append_cancel_right, cons-append, nil-append}
use tobey.Common.{
  ℕ, String, Bool, true, false, not, ◌&&◌, ◌||◌, Option, none, some, if◌then◌else◌, ◌==◌, string_eq,
  ◌≡◌, ◌≢◌, refl, List, ap, ◌∙◌, sym, eq_iff, arith, inl, inr, Bool-cases,
}
use Prim.Native.Char.{code}
use tobey.Common.Text.{◌<>◌}
use tobey.Run.{Run}
use tobey.Store.Contract.{RunStore, RunView, Refines, Call, tell, tell_refines}
use tobey.Store.Memory.{view_ext, memory_store, memory_store-Refines}
use tobey.Store.{create_store}

-- The commands that the store sends: a key holds a text or a set of texts. SET writes whatever the
-- key held, SADD and SISMEMBER fail on a text, GET fails on a set.
pub record RedisLib : Type 1 where
  pub Db : Type 0
  -- the texts that json.Marshal writes
  pub Json : Type 0
  pub empty : Db
  pub set : String → Json → Db → Db
  pub get : String → Db → Option Json
  pub del : String → Db → Db
  pub sadd : String → String → Db → Db
  pub sismember : String → String → Db → Bool
  -- json.Marshal and json.Unmarshal of a run's serializable part
  pub marshal : Run → Json
  pub unmarshal : Json → Run
  pub unmarshal-marshal : (run : Run) → unmarshal (marshal run) ≡ run
  pub get-empty : (k : String) → get k empty ≡ none
  pub sismember-empty : (k m : String) → sismember k m empty ≡ false
  pub get-set :
      (k : String) (v : Json) (j : String) (db : Db)
      → get j (set k v db) ≡ (if k == j then some v else get j db)
  pub get-del : (k j : String) (db : Db) → get j (del k db) ≡ (if k == j then none else get j db)
  pub get-sadd : (k m j : String) (db : Db) → get j (sadd k m db) ≡ get j db
  pub sismember-set :
      (k : String) (v : Json) (j m : String) (db : Db)
      → k ≢ j
      → sismember j m (set k v db) ≡ sismember j m db
  pub sismember-del :
      (k j m : String) (db : Db) → sismember j m (del k db) ≡ (not (k == j) && sismember j m db)
  -- of keys that hold no text
  pub sismember-sadd :
      (k m j n : String) (db : Db)
      → get k db ≡ none
      → sismember j n (sadd k m db) ≡ ((k == j && m == n) || sismember j n db)

abbrev pub static_key : String → String
static_key id = id <> ":static"

abbrev pub seen_key : String → String
seen_key id = id <> ":live:seen"

module _ (x : RedisLib) where
  open x use {Db}

  unfoldable pub save_run : Run → Db → Db
  save_run run db = x.set (static_key run.id) (x.marshal run) db

  unfoldable pub load_run : String → Db → Option Run
  load_run id db = elim (x.get (static_key id) db) [ none ↦ none | some v ↦ some (x.unmarshal v) ]

  unfoldable pub delete_run : String → Db → Db
  delete_run id db = x.del (seen_key id) (x.del (static_key id) db)

  unfoldable pub saw_url : String → String → Db → Db
  saw_url id url db = x.sadd (seen_key id) url db

  unfoldable pub has_seen_url : String → String → Db → Bool
  has_seen_url id url db = x.sismember (seen_key id) url db

  abbrev pub redis_store : RunStore Db
  redis_store = record {
    save_run = save_run;
    load_run = load_run;
    delete_run = delete_run;
    saw_url = saw_url;
    has_seen_url = has_seen_url;
  }
