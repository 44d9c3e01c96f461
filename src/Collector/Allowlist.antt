-- ===== src/Collector/Allowlist.antt =====
-- Which hosts the allowlist of a collector admits.
use mathlib.Core.List.{Memᴰ}
use tobey.Common.{
  String, Bool, ◌≡◌, ◌∙◌, refl, sym, ap, List, [], ◌∷◌, true, false, string_eq, inl, inr, ◌⊎◌,
  Option-cases, any, ◌↔◌, Bool-cases, ◌==◌, ◌||◌, eq_iff,
}
use tobey.Common.Text.{
  trim_prefix-append, ◌<>◌, cut_prefix, cut_prefix_sound, has_prefix, trim_prefix,
}
use tobey.Collector.{Collector, check_domain}

pub trim_prefix_absent : (s p : String) → has_prefix s p ≡ false → trim_prefix s p ≡ s
unfolding has_prefix trim_prefix
trim_prefix_absent s p e = elim (Option-cases (cut_prefix s p)) [
  | inl absent ↦ rw (absent, trim_prefix)
  | inr (rest, cut) ↦ cc (rw cut at e)
]

-- A host and its name without a leading www., which is taken off once.
abbrev pub Names : String → String → Type 0
Names host n = (host ≡ "www." <> n) ⊎ (host ≡ n) × (has_prefix host "www." ≡ false)

-- Some entry is the naked name of the host, or that with www. in front.
abbrev pub OnList : List String → String → Type 0
OnList allowed host =
    (n : String) × (d : String) × (Names host n × Memᴰ d allowed × ((d ≡ n) ⊎ (d ≡ "www." <> n)))

Names-trim_prefix : (host : String) → Names host (trim_prefix host "www.")
unfolding trim_prefix has_prefix
Names-trim_prefix host = elim (Option-cases (cut_prefix host "www.")) [
  | inl absent ↦
      let naked : has_prefix host "www." ≡ false = rw (has_prefix, absent) in
      inr (sym (trim_prefix_absent host "www." naked), naked)
  | inr (rest, cut) ↦
      let trimmed : trim_prefix host "www." ≡ rest = rw (trim_prefix, cut) in
      inl (rw trimmed (cut_prefix_sound host "www." rest cut))
]

trim_prefix-Names : (host n : String) → Names host n → trim_prefix host "www." ≡ n
trim_prefix-Names host n (inl www) = rw www (trim_prefix-append "www." n)
trim_prefix-Names host n (inr (same, naked)) = trim_prefix_absent host "www." naked ∙ same

module _ {A : Type 0} (p : A → Bool) where
  any-Mem : (xs : List A) → any p xs ≡ true → (x : A) × (Memᴰ x xs × (p x ≡ true))
  any-Mem [] h = cc h
  any-Mem (x ∷ xs) h = elim (Bool-cases (p x)) [
    | inl fits ↦ (x, (Memᴰ.head refl, fits))
    | inr misses ↦
        let (y, (there, fits)) = any-Mem xs (rw (any, misses) at h) in (y, (Memᴰ.tail there, fits))
  ]

  Mem-any : (xs : List A) (x : A) → Memᴰ x xs → p x ≡ true → any p xs ≡ true
  Mem-any [] x m fits = elim m [ ]
  Mem-any (y ∷ xs) x (Memᴰ.head same) fits = rw (any, ap p (sym same) ∙ fits)
  Mem-any (y ∷ xs) x (Memᴰ.tail m) fits = elim (Bool-cases (p y)) [
    | inl first ↦ rw (any, first)
    | inr other ↦ rw (any, other) (Mem-any xs x m fits)
  ]

either-== : (a b d : String) → (d == a || d == b) ≡ true → (d ≡ a) ⊎ (d ≡ b)
either-== a b d h = elim (Bool-cases (d == a)) [
  | inl same ↦ inl ((eq_iff d a).0 same)
  | inr other ↦ inr ((eq_iff d b).0 (rw other at h))
]

==-either : (a b d : String) → (d ≡ a) ⊎ (d ≡ b) → (d == a || d == b) ≡ true
==-either a b d (inl e) = rw ((eq_iff d a).1 e) refl
==-either a b d (inr e) = elim (Bool-cases (d == a)) [
  | inl same ↦ rw same refl
  | inr other ↦ rw (other, (eq_iff d b).1 e) refl
]

pub check_domain-OnList :
    (c : Collector) (host : String) → (check_domain c host ≡ true) ↔ OnList c.allow_domains host
unfolding check_domain
check_domain-OnList c host = (
  λ h.
      let (d, (there, fits)) = any-Mem _ c.allow_domains h in
      (
        trim_prefix host "www.",
        d,
        (Names-trim_prefix host, there, either-== (trim_prefix host "www.") _ d fits),
      ),
  λ (n, d, (named, there, e)).
      rw (trim_prefix-Names host n named) (Mem-any _ c.allow_domains d there (==-either n _ d e)),
)
