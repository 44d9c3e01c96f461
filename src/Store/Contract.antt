-- ===== src/Store/Contract.antt =====
-- The interface RunStore of store.go, and what it promises: a map of runs, and for each run a set of
-- URLs. A store refines that contract through a view of its states.
use tobey.Common.{
  String, Bool, false, not, ◌&&◌, ◌||◌, Option, none, some, if◌then◌else◌, ◌==◌, string_eq, ◌≡◌,
  refl, List, [], ◌∷◌, ap, ◌∙◌,
}
use tobey.Run.{Run}

pub record RunStore (S : Type 0) : Type 0 where
  pub save_run : Run → S → S
  pub load_run : String → S → Option Run
  pub delete_run : String → S → S
  pub saw_url : String → String → S → S
  pub has_seen_url : String → String → S → Bool

-- The abstract state, and each call that changes it.
pub record RunView : Type 0 where
  pub runs : String → Option Run
  pub seen : String → String → Bool

abbrev pub nothing_stored : RunView
nothing_stored = record { runs = λ id. none; seen = λ id url. false }

abbrev pub saved : Run → RunView → RunView
saved run v = record v { runs = λ id. if run.id == id then some run else v.runs id }

abbrev pub deleted : String → RunView → RunView
deleted id v = record {
  runs = λ j. if id == j then none else v.runs j;
  seen = λ j url. not (id == j) && v.seen j url;
}

abbrev pub marked : String → String → RunView → RunView
marked id url v = record v { seen = λ j u. (id == j && url == u) || v.seen j u }

-- What a store owes its clients: in its valid states, which the calls keep, every call is the call of
-- the same name on the view.
pub record Refines {S : Type 0} (store : RunStore S) (initial : S) : Type 1 where
  pub Valid : S → Type 0
  pub view : S → RunView
  pub initial-Valid : Valid initial
  pub save_run-Valid : (run : Run) (s : S) → Valid s → Valid (store.save_run run s)
  pub delete_run-Valid : (id : String) (s : S) → Valid s → Valid (store.delete_run id s)
  pub saw_url-Valid : (id url : String) (s : S) → Valid s → Valid (store.saw_url id url s)
  pub view-initial : view initial ≡ nothing_stored
  pub view-save_run :
      (run : Run) (s : S) → Valid s → view (store.save_run run s) ≡ saved run (view s)
  pub view-delete_run :
      (id : String) (s : S) → Valid s → view (store.delete_run id s) ≡ deleted id (view s)
  pub view-saw_url :
      (id url : String) (s : S) → Valid s → view (store.saw_url id url s) ≡ marked id url (view s)
  pub load_run-view : (id : String) (s : S) → store.load_run id s ≡ (view s).runs id
  pub has_seen_url-view :
      (id url : String) (s : S) → store.has_seen_url id url s ≡ (view s).seen id url

-- A client's calls, and what it is told.
pub data Call : Type 0 where
  save : Run → Call
  load : String → Call
  delete : String → Call
  mark : String → String → Call
  ask : String → String → Call

pub data Told : Type 0 where
  loaded : Option Run → Told
  answered : Bool → Told

abbrev pub tell : {S : Type 0} → RunStore S → List Call → S → List Told
tell store [] s = []
tell store (save run ∷ cs) s = tell store cs (store.save_run run s)
tell store (load id ∷ cs) s = loaded (store.load_run id s) ∷ tell store cs s
tell store (delete id ∷ cs) s = tell store cs (store.delete_run id s)
tell store (mark id url ∷ cs) s = tell store cs (store.saw_url id url s)
tell store (ask id url ∷ cs) s = answered (store.has_seen_url id url s) ∷ tell store cs s

-- The contract itself, as a store of views.
abbrev pub contract : RunStore RunView
contract = record {
  save_run = saved;
  load_run = λ id v. v.runs id;
  delete_run = deleted;
  saw_url = marked;
  has_seen_url = λ id url v. v.seen id url;
}

module _ {S : Type 0} (store : RunStore S) (initial : S) (r : Refines store initial) where
  open r use {view}

  tell-view : (cs : List Call) (s : S) → r.Valid s → tell store cs s ≡ tell contract cs (view s)
  tell-view [] s v = refl
  tell-view (save run ∷ cs) s v =
      tell-view cs (store.save_run run s) (r.save_run-Valid run s v)
      ∙ ap (tell contract cs) (r.view-save_run run s v)
  tell-view (load id ∷ cs) s v = rw (r.load_run-view id s, tell-view cs s v)
  tell-view (delete id ∷ cs) s v =
      tell-view cs (store.delete_run id s) (r.delete_run-Valid id s v)
      ∙ ap (tell contract cs) (r.view-delete_run id s v)
  tell-view (mark id url ∷ cs) s v =
      tell-view cs (store.saw_url id url s) (r.saw_url-Valid id url s v)
      ∙ ap (tell contract cs) (r.view-saw_url id url s v)
  tell-view (ask id url ∷ cs) s v = rw (r.has_seen_url-view id url s, tell-view cs s v)

  -- A store that refines the contract tells every client what the contract tells, whatever is
  -- called in whatever order.
  pub tell_refines : (cs : List Call) → tell store cs initial ≡ tell contract cs nothing_stored
  tell_refines cs = tell-view cs initial r.initial-Valid ∙ ap (tell contract cs) r.view-initial
