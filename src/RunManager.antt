-- ===== src/RunManager.antt =====
-- runmanager.go. The expirable LRU of hashicorp/golang-lru is a parameter.
pub mod Laws
use tobey.Common.{ℕ, String, List, [], ◌∷◌, ◌≡◌, ◌≢◌, Bool, Option, none, some, is_some}
use tobey.Run.{Run}
use tobey.Store.{MemoryStore, create_store, save_run, load_run, delete_run}

-- `add` also yields the entry that it evicts, which it hands to the eviction callback; `expire`
-- drops the entries that are older than the TTL and hands each to the callback.
pub record LruLib : Type 1 where
  pub Cache : Type 0
  pub empty : Cache
  pub get : String → Cache → Option Run × Cache
  pub add : Run → Cache → Cache × Option Run
  pub expire : Cache → Cache × List Run
  -- An entry is found until it is evicted or expires; an evicted one has another key and is gone.
  pub get-get : (id : String) (c : Cache) → (get id (get id c).1).0 ≡ (get id c).0
  pub get-add : (r : Run) (c : Cache) → (get r.id (add r c).0).0 ≡ some r
  pub add-evicted :
      (r v : Run) (c : Cache)
      → (add r c).1 ≡ some v
      → (v.id ≢ r.id) × ((get v.id (add r c).0).0 ≡ none)

-- `robots` and `sitemaps` of the source are handed on to each run unread.
pub record RunManager (C : Type 0) : Type 0 where
  pub entries : C
  pub store : MemoryStore

-- onEviction
abbrev pub forget : Option Run → MemoryStore → MemoryStore
forget none s = s
forget (some v) s = delete_run v.id s

forget_all : List Run → MemoryStore → MemoryStore
forget_all [] s = s
forget_all (v ∷ vs) s = forget_all vs (delete_run v.id s)

module _ (lru : LruLib) where
  open lru use {Cache, get, add, expire}

  unfoldable pub new_run_manager : RunManager Cache
  unfolding create_store
  new_run_manager = record { entries = lru.empty; store = create_store }

  -- `Add` of the cache, with its callback.
  unfoldable pub add_entry : Run → RunManager Cache → RunManager Cache
  add_entry run m = record {
    entries = (add run m.entries).0;
    store = forget (add run m.entries).1 m.store;
  }

  -- The answer says whether a run was evicted.
  unfoldable pub add_run : Run → RunManager Cache → RunManager Cache × Bool
  unfolding add_entry
  add_run run m =
      (add_entry run (record m { store = save_run run m.store }), is_some (add run m.entries).1)

  load_entry : Option Run → RunManager Cache → RunManager Cache × Option Run
  unfolding add_entry
  load_entry none m = (m, none)
  load_entry (some run) m = (add_entry run m, some run)

  found_entry : String → Option Run → RunManager Cache → RunManager Cache × Option Run
  unfolding load_entry
  found_entry id (some run) m = (m, some run)
  found_entry id none m = load_entry (load_run id m.store) m

  unfoldable pub get_run : String → RunManager Cache → RunManager Cache × Option Run
  unfolding found_entry
  get_run id m = found_entry id (get id m.entries).0 (record m { entries = (get id m.entries).1 })

  -- What the cache does by itself as time passes.
  unfoldable pub expire_runs : RunManager Cache → RunManager Cache
  unfolding forget_all
  expire_runs m = record {
    entries = (expire m.entries).0;
    store = forget_all (expire m.entries).1 m.store;
  }
