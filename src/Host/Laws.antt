-- ===== src/Host/Laws.antt =====
-- Which credentials a request gets, and how far a host's hash tells hosts apart.
use mathlib.Core.List.{Memᴰ}
use mathlib.Core.Option.{some-injective}
use tobey.Common.{
  String, ◌≡◌, refl, sym, subst, List, [], ◌∷◌, true, some, arith, eq_iff, inl, inr, Bool-cases,
}
use tobey.Host.{Host, AuthConfig, matches, get_auth}

matches_sound :
    (ac : AuthConfig) (h : Host)
    → matches ac h ≡ true
    → (ac.host.name ≡ h.name) × (ac.host.port ≡ h.port)
unfolding matches
matches_sound ac h e = ground (arith, eq_iff h.name ac.host.name, eq_iff h.port ac.host.port)

-- The credentials found for a host are configured, and for that name and port.
pub get_auth_sound :
    (acs : List AuthConfig) (h : Host) (ac : AuthConfig)
    → get_auth acs h ≡ some ac
    → Memᴰ ac acs × (ac.host.name ≡ h.name) × (ac.host.port ≡ h.port)
unfolding get_auth
get_auth_sound [] h ac e = cc
get_auth_sound (c ∷ acs) h ac e = elim (Bool-cases (matches c h)) [
  | inl hit ↦
      let same : c ≡ ac = some-injective c ac (ground arith) in
      let at = matches_sound c h hit in
      (
        Memᴰ.head (sym same),
        subst (λ (a : AuthConfig). a.host.name ≡ h.name) same at.0,
        subst (λ (a : AuthConfig). a.host.port ≡ h.port) same at.1,
      )
  | inr miss ↦
      let (there, name, port) = get_auth_sound acs h ac (ground arith) in
      (Memᴰ.tail there, name, port)
]

-- Hosts that agree in name and port get the same credentials, whatever their schemes.
pub get_auth_scheme :
    (acs : List AuthConfig) (h : Host) (scheme : String)
    → get_auth acs (record h { preferred_scheme = scheme }) ≡ get_auth acs h
unfolding get_auth
get_auth_scheme [] h scheme = refl
get_auth_scheme (c ∷ acs) h scheme = ground (arith, get_auth_scheme acs h scheme)
