-- ===== src/Store/Laws.antt =====
-- The store as a map of runs and, for each run, a set of URLs.
use tobey.Common.{
  String, ◌≡◌, refl, ◌∙◌, ◌++◌, [], ◌∷◌, ◌&&◌, ◌||◌, not, none, some, if◌then◌else◌, ◌==◌,
  string_eq, arith, Option-cases, Bool-cases, inl, inr, eq_iff, subst,
}
use tobey.Common.Dict.{lookup, insert, delete, lookup-insert, lookup-delete}
use tobey.Run.{Run}
use tobey.Store.{
  MemoryStore, Seen, save_run, load_run, delete_run, saw_url, has_seen_url, is_listed,
  seen_or_empty,
}

is_listed-append :
    (url v : String) (seen : Seen)
    → is_listed url (seen ++ v ∷ []) ≡ (is_listed url seen || v == url)
unfolding is_listed
is_listed-append url v [] = ground arith
is_listed-append url v (w ∷ seen) = ground (arith, is_listed-append url v seen)

has_seen_url_lem :
    (run url : String) (s : MemoryStore)
    → has_seen_url run url s ≡ is_listed url (seen_or_empty (lookup run s.rlive))
unfolding has_seen_url
has_seen_url_lem run url s = elim (Option-cases (lookup run s.rlive)) [
  | inl missing ↦ rw (missing, has_seen_url)
  | inr (seen, there) ↦ rw (there, has_seen_url)
]

rlive-saw_url :
    (run url : String) (s : MemoryStore)
    → (saw_url run url s).rlive
      ≡ insert run (seen_or_empty (lookup run s.rlive) ++ url ∷ []) s.rlive
unfolding saw_url
rlive-saw_url run url s = refl

lookup-delete_run :
    (id : String) (s : MemoryStore)
    → ((delete_run id s).rlive ≡ delete id s.rlive)
      × ((delete_run id s).rstatic ≡ delete id s.rstatic)
unfolding delete_run
lookup-delete_run id s = (refl, refl)

load_run_lem : (id : String) (s : MemoryStore) → load_run id s ≡ lookup id s.rstatic
unfolding load_run
load_run_lem id s = refl

-- A URL is seen in a run after it was marked there, and otherwise as before.
pub has_seen_url-saw_url :
    (run url run' url' : String) (s : MemoryStore)
    → has_seen_url run' url' (saw_url run url s)
      ≡ ((run == run' && url == url') || has_seen_url run' url' s)
has_seen_url-saw_url run url run' url' s =
    rw
      (
        has_seen_url_lem run' url' (saw_url run url s),
        has_seen_url_lem run' url' s,
        rlive-saw_url run url s,
        lookup-insert run run' (seen_or_empty (lookup run s.rlive) ++ url ∷ []) s.rlive,
      )
      (elim (Bool-cases (run == run')) [
        | inl same ↦ rw same (
            subst
              (λ r.
                is_listed url' (seen_or_empty (lookup run s.rlive) ++ url ∷ [])
                ≡ (url == url' || is_listed url' (seen_or_empty (lookup r s.rlive))))
              ((eq_iff run run').0 same)
              (is_listed-append url' url (seen_or_empty (lookup run s.rlive)) ∙ ground arith))
        | inr other ↦ rw other
      ])

-- Deleting a run forgets it and all its URLs, and nothing of another run.
pub delete_run_forgets :
    (id : String) (s : MemoryStore) (id' url : String)
    → (load_run id' (delete_run id s) ≡ (if id == id' then none else load_run id' s))
      × (has_seen_url id' url (delete_run id s) ≡ (not (id == id') && has_seen_url id' url s))
unfolding is_listed
delete_run_forgets id s id' url =
    let (live, static) = lookup-delete_run id s in
    (
      rw (load_run_lem id' (delete_run id s), load_run_lem id' s, static)
          (lookup-delete id id' s.rstatic),
      rw
          (
            has_seen_url_lem id' url (delete_run id s),
            has_seen_url_lem id' url s,
            live,
            lookup-delete id id' s.rlive,
          )
          (elim (Bool-cases (id == id')) [ inl same ↦ rw same | inr other ↦ rw other ]),
    )

pub load_run-save_run :
    (run : Run) (id : String) (s : MemoryStore)
    → load_run id (save_run run s) ≡ (if run.id == id then some run else load_run id s)
unfolding load_run save_run
load_run-save_run run id s = lookup-insert run.id id run s.rstatic
