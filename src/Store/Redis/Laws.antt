-- ===== src/Store/Redis/Laws.antt =====
-- The Redis store of store_redis.go as a run store, beside the memory store.
use tobey.Common.{
  String, Bool, true, false, not, ◌&&◌, ◌||◌, Option, none, some, if◌then◌else◌, ◌==◌, string_eq,
  ◌≡◌, refl, List, ap, ◌∙◌, sym, inl, inr, Bool-cases,
}
use tobey.Run.{Run}
use tobey.Store.Contract.{RunView, Refines, Call, tell, tell_refines}
use tobey.Store.Memory.{view_ext, memory_store, memory_store-Refines}
use tobey.Store.{create_store}
use tobey.Store.Redis.{
  RedisLib, static_key, seen_key, save_run, load_run, delete_run, saw_url, has_seen_url,
  redis_store,
}
use tobey.Store.Redis.Keys.{suffix_eq, apart_eq, apart_eq_sym, keys_apart}

none_or : {A : Type 0} (b : Bool) (m : Option A) → m ≡ none → (if b then none else m) ≡ none
none_or true m e = refl
none_or false m e = e

module _ (x : RedisLib) where
  open x use {Db}

  abbrev view : Db → RunView
  view db = record { runs = λ id. load_run x id db; seen = λ id url. has_seen_url x id url db }

  -- A set's key holds no text.
  abbrev Valid : Db → Type 0
  Valid db = (id : String) → x.get (seen_key id) db ≡ none

  save_run-Valid : (run : Run) (db : Db) → Valid db → Valid (save_run x run db)
  unfolding save_run
  save_run-Valid run db v id =
      x.get-set (static_key run.id) (x.marshal run) (seen_key id) db
      ∙ rw (apart_eq run.id id) (v id)

  delete_run-Valid : (id : String) (db : Db) → Valid db → Valid (delete_run x id db)
  unfolding delete_run
  delete_run-Valid id db v j =
      x.get-del (seen_key id) (seen_key j) _
      ∙ rw (
          none_or (seen_key id == seen_key j) _
            (x.get-del (static_key id) (seen_key j) db ∙ rw (apart_eq id j) (v j)))

  load_run-save_run :
      (run : Run) (id : String) (db : Db)
      → load_run x id (save_run x run db) ≡ (if run.id == id then some run else load_run x id db)
  unfolding load_run save_run
  load_run-save_run run id db =
      rw
        (
          x.get-set (static_key run.id) (x.marshal run) (static_key id) db,
          suffix_eq run.id id ":static",
          load_run,
          save_run,
        )
        (elim (Bool-cases (run.id == id)) [
          | inl same ↦ rw same (ap some (x.unmarshal-marshal run))
          | inr other ↦ rw other
        ])

  load_run-delete_run :
      (id j : String) (db : Db)
      → load_run x j (delete_run x id db) ≡ (if id == j then none else load_run x j db)
  unfolding load_run delete_run
  load_run-delete_run id j db =
      rw
        (
          x.get-del (seen_key id) (static_key j) _,
          apart_eq_sym id j,
          x.get-del (static_key id) (static_key j) db,
          suffix_eq id j ":static",
          load_run,
          delete_run,
        )
        (elim (Bool-cases (id == j)) [ inl same ↦ rw same | inr other ↦ rw other ])

  seen-delete_run :
      (id j url : String) (db : Db)
      → has_seen_url x j url (delete_run x id db) ≡ (not (id == j) && has_seen_url x j url db)
  unfolding has_seen_url delete_run
  seen-delete_run id j url db = rw (
    x.sismember-del (seen_key id) (seen_key j) url _,
    suffix_eq id j ":live:seen",
    x.sismember-del (static_key id) (seen_key j) url db,
    apart_eq id j,
  )

  saw_url-Valid : (id url : String) (db : Db) → Valid db → Valid (saw_url x id url db)
  unfolding saw_url
  saw_url-Valid id url db v j = x.get-sadd (seen_key id) url (seen_key j) db ∙ v j

  seen-save_run :
      (run : Run) (id url : String) (db : Db)
      → has_seen_url x id url (save_run x run db) ≡ has_seen_url x id url db
  unfolding save_run has_seen_url
  seen-save_run run id url db =
      x.sismember-set (static_key run.id) (x.marshal run) (seen_key id) url db
        (keys_apart run.id id)

  seen-saw_url :
      (id url j u : String) (db : Db)
      → Valid db
      → has_seen_url x j u (saw_url x id url db) ≡ ((id == j && url == u) || has_seen_url x j u db)
  unfolding saw_url has_seen_url
  seen-saw_url id url j u db v =
      x.sismember-sadd (seen_key id) url (seen_key j) u db (v id) ∙ rw (suffix_eq id j ":live:seen")

  load_run-saw_url :
      (id url j : String) (db : Db) → load_run x j (saw_url x id url db) ≡ load_run x j db
  unfolding load_run saw_url
  load_run-saw_url id url j db = rw (x.get-sadd (seen_key id) url (static_key j) db, load_run)

  -- The Redis store refines the contract of a run store.
  pub redis_store-Refines : Refines (redis_store x) x.empty
  unfolding has_seen_url load_run
  redis_store-Refines = record {
    Valid = Valid;
    view = view;
    initial-Valid = λ id. x.get-empty (seen_key id);
    save_run-Valid = save_run-Valid;
    delete_run-Valid = delete_run-Valid;
    saw_url-Valid = saw_url-Valid;
    view-initial =
        view_ext _ _ (λ id. rw (x.get-empty (static_key id), load_run))
          (λ id url. x.sismember-empty (seen_key id) url);
    view-save_run = λ run db v.
        view_ext _ _ (λ id. load_run-save_run run id db) (λ id url. seen-save_run run id url db);
    view-delete_run = λ id db v.
        view_ext _ _ (λ j. load_run-delete_run id j db) (λ j url. seen-delete_run id j url db);
    view-saw_url = λ id url db v.
        view_ext _ _ (λ j. load_run-saw_url id url j db) (λ j u. seen-saw_url id url j u db v);
    load_run-view = λ id s. refl;
    has_seen_url-view = λ id url s. refl;
  }

  -- Whatever a client calls, in whatever order, it is told the same by the Redis store that starts
  -- empty as by a new memory store, if no key expires.
  pub stores_agree :
      (cs : List Call) → tell (redis_store x) cs x.empty ≡ tell memory_store cs create_store
  stores_agree cs =
      tell_refines (redis_store x) x.empty redis_store-Refines cs
      ∙ sym (tell_refines memory_store create_store memory_store-Refines cs)
