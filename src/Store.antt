-- ===== src/Store.antt =====
-- store.go and store_memory.go. The store's lock makes each call one step.
pub mod Laws
pub mod Contract
pub mod Memory
pub mod Redis
use tobey.Common.{
  ℕ, String, ◌++◌, List, [], ◌∷◌, Bool, true, false, Option, none, some, if◌then◌else◌, ◌==◌,
  string_eq, is_some,
}
use tobey.Common.Dict.{lookup, insert, delete, contains_key}
use tobey.Host.{Host}
use tobey.Run.{Run}

-- LiveRun
abbrev pub Seen : Type 0
Seen = List String

-- `hlive` of the source is never used.
pub record MemoryStore : Type 0 where
  pub rstatic : List (String × Run)
  pub rlive : List (String × Seen)
  pub hstatic : List (String × Host)

unfoldable pub create_store : MemoryStore
create_store = record { rstatic = []; rlive = []; hstatic = [] }

unfoldable pub save_run : Run → MemoryStore → MemoryStore
unfolding insert
save_run run s = record s { rstatic = insert run.id run s.rstatic }

unfoldable pub load_run : String → MemoryStore → Option Run
unfolding lookup
load_run id s = lookup id s.rstatic

unfoldable pub delete_run : String → MemoryStore → MemoryStore
unfolding delete
delete_run id s = record s { rstatic = delete id s.rstatic; rlive = delete id s.rlive }

abbrev pub seen_or_empty : Option Seen → Seen
seen_or_empty none = []
seen_or_empty (some seen) = seen

unfoldable pub saw_url : String → String → MemoryStore → MemoryStore
unfolding lookup insert
saw_url run url s = record s {
  rlive = insert run (seen_or_empty (lookup run s.rlive) ++ url ∷ []) s.rlive;
}

-- The loop of `HasSeenURL`.
unfoldable pub is_listed : String → Seen → Bool
is_listed url [] = false
is_listed url (v ∷ seen) = if v == url then true else is_listed url seen

unfoldable pub has_seen_url : String → String → MemoryStore → Bool
unfolding lookup is_listed
has_seen_url run url s = elim (lookup run s.rlive) [ none ↦ false | some seen ↦ is_listed url seen ]

-- `key` is the host's hash without authentication, in hexadecimal digits.
unfoldable pub save_host : String → Host → MemoryStore → MemoryStore × Bool
unfolding contains_key insert
save_host key host s =
    if contains_key key s.hstatic
    then (s, false)
    else (record s { hstatic = insert key host s.hstatic }, true)

unfoldable pub load_host : String → MemoryStore → Option Host
unfolding lookup
load_host id s = lookup id s.hstatic

unfoldable pub delete_host : String → MemoryStore → MemoryStore
unfolding delete
delete_host id s = record s { hstatic = delete id s.hstatic }
