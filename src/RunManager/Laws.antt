-- ===== src/RunManager/Laws.antt =====
-- Which runs the manager can give back.
use tobey.Common.{String, ◌≡◌, ap, none, some, eq_refl, string_eq}
use tobey.Run.{Run}
use tobey.Store.{save_run}
use tobey.Store.Laws.{delete_run_forgets}
use tobey.RunManager.{LruLib, RunManager, add_run, get_run}

module _ (lru : LruLib) where
  open lru use {Cache, get, add}

  -- A run that was just added is found.
  pub get_run-add_run :
      (run : Run) (m : RunManager Cache) → (get_run lru run.id (add_run lru run m).0).1 ≡ some run
  unfolding get_run add_run
  get_run-add_run run m = rw (lru.get-add run m.entries)

  -- Adding a run to a full cache loses the run that it evicts for good: the store forgets it too.
  pub evicted_run_lost :
      (run v : Run) (m : RunManager Cache)
      → (add run m.entries).1 ≡ some v
      → (get_run lru v.id (add_run lru run m).0).1 ≡ none
  unfolding get_run add_run
  evicted_run_lost run v m e =
      let forgotten = (delete_run_forgets v.id (save_run run m.store) v.id "").0 in
      rw ((lru.add-evicted run v m.entries e).1, e, ap (λ o. o) forgotten, eq_refl v.id)

  pub get_run-cached :
      (id : String) (run : Run) (m : RunManager Cache)
      → (get id m.entries).0 ≡ some run
      → get_run lru id m ≡ (record m { entries = (get id m.entries).1 }, some run)
  unfolding get_run
  get_run-cached id run m e = rw e
