-- ===== src/Store/Redis/Keys.antt =====
-- When keys of store_redis.go are the same.
use text.Mathlib.TextLemmas.{append_cancel_right, cons-append, nil-append}
use tobey.Common.{
  ℕ, String, Bool, true, false, ◌==◌, string_eq, ◌≡◌, ◌≢◌, refl, ap, ◌∙◌, sym, eq_iff, arith, inl,
  inr, Bool-cases,
}
use Prim.Native.Char.{code}
use tobey.Common.Text.{◌<>◌}
use tobey.Store.Redis.{static_key, seen_key}

last_from : ℕ → String → ℕ
last_from d String.[] = d
last_from d (String.◌∷◌ c s) = last_from (code c) s

last_from-append : (d : ℕ) (s t : String) → last_from d (s <> t) ≡ last_from (last_from d s) t
unfolding last_from
last_from-append d String.[] t = rw (nil-append t)
last_from-append d (String.◌∷◌ c s) t =
    rw (cons-append c s t, last_from, last_from-append (code c) s t)

-- No run's text is kept where a run's set is.
pub keys_apart : (id j : String) → static_key id ≢ seen_key j
unfolding last_from
keys_apart id j e =
    let same : ◌≡◌ {A = ℕ} 99 110 =
      sym (last_from-append 0 id ":static")
      ∙ ap (last_from 0) e
      ∙ last_from-append 0 j ":live:seen" in
    omega arith

bool_ext : (a b : Bool) → (a ≡ true → b ≡ true) → (b ≡ true → a ≡ true) → a ≡ b
bool_ext true b f g = sym (f refl)
bool_ext false true f g = g refl
bool_ext false false f g = refl

pub suffix_eq : (id j t : String) → ((id <> t) == (j <> t)) ≡ (id == j)
suffix_eq id j t =
    bool_ext _ _
      (λ e. (eq_iff id j).1 (append_cancel_right id j t ((eq_iff (id <> t) (j <> t)).0 e)))
      (λ e. (eq_iff (id <> t) (j <> t)).1 (ap (λ s. s <> t) ((eq_iff id j).0 e)))

pub apart_eq : (id j : String) → (static_key id == seen_key j) ≡ false
apart_eq id j = elim (Bool-cases (static_key id == seen_key j)) [
  | inl same ↦ absurd (keys_apart id j ((eq_iff (static_key id) (seen_key j)).0 same))
  | inr other ↦ other
]

pub apart_eq_sym : (id j : String) → (seen_key id == static_key j) ≡ false
apart_eq_sym id j = elim (Bool-cases (seen_key id == static_key j)) [
  | inl same ↦ absurd (keys_apart j id (sym ((eq_iff (seen_key id) (static_key j)).0 same)))
  | inr other ↦ other
]
