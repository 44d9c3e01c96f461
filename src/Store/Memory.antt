-- ===== src/Store/Memory.antt =====
-- The memory store of store_memory.go as a run store.
use tobey.Common.{String, string_eq, ◌≡◌, refl, List}
use tobey.Run.{Run}
use tobey.Store.{MemoryStore, create_store, save_run, load_run, delete_run, saw_url, has_seen_url}
use tobey.Store.Laws.{has_seen_url-saw_url, delete_run_forgets, load_run-save_run}
use tobey.Store.Contract.{
  RunStore, RunView, nothing_stored, Refines, Call, tell, contract, tell_refines,
}

abbrev pub memory_store : RunStore MemoryStore
memory_store = record {
  save_run = save_run;
  load_run = load_run;
  delete_run = delete_run;
  saw_url = saw_url;
  has_seen_url = has_seen_url;
}

abbrev view : MemoryStore → RunView
view s = record { runs = λ id. load_run id s; seen = λ id url. has_seen_url id url s }

-- Views that agree everywhere are the same.
pub view_ext :
    (v w : RunView)
    → ((id : String) → v.runs id ≡ w.runs id)
    → ((id url : String) → v.seen id url ≡ w.seen id url)
    → v ≡ w
view_ext v w f g i = record { runs = λ id. f id i; seen = λ id url. g id url i }

view-create_store : view create_store ≡ nothing_stored
unfolding create_store load_run has_seen_url
view-create_store = view_ext _ _ (λ id. refl) (λ id url. refl)

seen-save_run :
    (run : Run) (id url : String) (s : MemoryStore)
    → has_seen_url id url (save_run run s) ≡ has_seen_url id url s
unfolding save_run has_seen_url
seen-save_run run id url s = refl

runs-saw_url :
    (run url id : String) (s : MemoryStore) → load_run id (saw_url run url s) ≡ load_run id s
unfolding saw_url load_run
runs-saw_url run url id s = refl

-- The memory store refines the contract of a run store.
pub memory_store-Refines : Refines memory_store create_store
memory_store-Refines = record {
  Valid = λ s. Unit;
  view = view;
  initial-Valid = tt;
  save_run-Valid = λ run s v. tt;
  delete_run-Valid = λ id s v. tt;
  saw_url-Valid = λ id url s v. tt;
  view-initial = view-create_store;
  view-save_run = λ run s v.
      view_ext _ _ (λ id. load_run-save_run run id s) (λ id url. seen-save_run run id url s);
  view-delete_run = λ id s v.
      view_ext _ _ (λ j. (delete_run_forgets id s j "").0)
        (λ j url. (delete_run_forgets id s j url).1);
  view-saw_url = λ id url s v.
      view_ext _ _ (λ j. runs-saw_url id url j s) (λ j u. has_seen_url-saw_url id url j u s);
  load_run-view = λ id s. refl;
  has_seen_url-view = λ id url s. refl;
}

-- Whatever a client calls of the memory store, in whatever order, it is told what the contract tells:
-- a run is loaded as it was saved last, unless it was deleted since, and a URL has been seen by a run
-- that was told so and not deleted since.
pub memory_store_told :
    (cs : List Call) → tell memory_store cs create_store ≡ tell contract cs nothing_stored
memory_store_told = tell_refines memory_store create_store memory_store-Refines
