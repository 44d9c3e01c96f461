-- ===== src/Tests/Stores.antt =====
-- The two stores at concrete inputs.
use tobey.Common.{
  String, Bool, true, false, not, ◌&&◌, ◌||◌, Option, none, some, if◌then◌else◌, ◌==◌, string_eq,
  ◌≡◌, ◌≢◌, refl, [], List, ◌∷◌, eq_iff, Bool-cases, inl, inr, is_some,
}
use tobey.Run.{Run}
use tobey.Store.{create_store}
use tobey.Store.Contract.{
  Call, save, load, delete, mark, ask, tell, contract, nothing_stored, loaded, answered,
}
use tobey.Store.Memory.{memory_store, memory_store_told}
use tobey.Store.Redis.{RedisLib, redis_store}
use tobey.Store.Redis.Laws.{stores_agree}
use tobey.Tests.Libs.{run_named}

-- A server that holds a text, or a set, under each key.
record Server : Type 0 where
  texts : String → Option Run
  sets : String → String → Bool

ne→false : (k j : String) → k ≢ j → (k == j) ≡ false
ne→false k j ne = elim (Bool-cases (k == j)) [
  | inl same ↦ absurd (ne ((eq_iff k j).0 same))
  | inr other ↦ other
]

abbrev redis : RedisLib
redis = record {
  Db = Server;
  Json = Run;
  empty = record { texts = λ k. none; sets = λ k m. false };
  set = λ k v db. record {
    texts = λ j. if k == j then some v else db.texts j;
    sets = λ j m. not (k == j) && db.sets j m;
  };
  get = λ k db. db.texts k;
  del = λ k db. record {
    texts = λ j. if k == j then none else db.texts j;
    sets = λ j m. not (k == j) && db.sets j m;
  };
  sadd = λ k m db.
      if is_some (db.texts k)
      then db
      else record db { sets = λ j n. (k == j && m == n) || db.sets j n };
  sismember = λ k m db. db.sets k m;
  marshal = λ run. run;
  unmarshal = λ run. run;
  unmarshal-marshal = λ run. refl;
  get-empty = λ k. refl;
  sismember-empty = λ k m. refl;
  get-set = λ k v j db. refl;
  get-del = λ k j db. refl;
  get-sadd = λ k m j db. elim (Bool-cases (is_some (db.texts k))) [
    | inl text ↦ rw text
    | inr free ↦ rw free
  ];
  sismember-set = λ k v j m db ne. rw (ne→false k j ne);
  sismember-del = λ k j m db. refl;
  sismember-sadd = λ k m j n db free. rw free;
}

abbrev calls : List Call
calls =
    mark "r" "u"
    ∷ save (run_named "r")
    ∷ ask "r" "u"
    ∷ ask "s" "u"
    ∷ load "r"
    ∷ delete "r"
    ∷ ask "r" "u"
    ∷ load "r"
    ∷ []

memory_store_told_example :
    tell memory_store calls create_store ≡ tell contract calls nothing_stored
memory_store_told_example = memory_store_told calls

contract_tells :
    tell contract calls nothing_stored
    ≡ answered true
      ∷ answered false
      ∷ loaded (some (run_named "r"))
      ∷ answered false
      ∷ loaded none
      ∷ []
contract_tells = refl

stores_agree_example :
    tell (redis_store redis) calls redis.empty ≡ tell memory_store calls create_store
stores_agree_example = stores_agree redis calls
