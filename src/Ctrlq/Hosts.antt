-- ===== src/Ctrlq/Hosts.antt =====
-- internal/ctrlq/util.go: the number that stands for a host, and hash/fnv beneath it.
use Prim.Native.Char.{code}
use Prim.Native.Nat.{bit_xor}
use tobey.Common.{
  ℕ, String, ◌+◌, ◌*◌, ◌/◌, ◌%◌, ◌^◌, ◌<◌, ◌≡◌, refl, List, [], ◌∷◌, ◌++◌, none, some, ltb,
  if◌then◌else◌, arith, Option-cases, inl, inr,
}
use tobey.Common.Text.{trim_left}
use tobey.Url.{UrlLib, hostname}

-- The UTF-8 form of a character and of a text.
encode : ℕ → List ℕ
encode c =
    if ltb c 128
    then c ∷ []
    else if ltb c 2048
    then (192 + c / 64) ∷ (128 + c % 64) ∷ []
    else if ltb c 65536
    then (224 + c / 4096) ∷ (128 + c / 64 % 64) ∷ (128 + c % 64) ∷ []
    else (240 + c / 262144) ∷ (128 + c / 4096 % 64) ∷ (128 + c / 64 % 64) ∷ (128 + c % 64) ∷ []

unfoldable pub bytes : String → List ℕ
unfolding encode
bytes String.[] = []
bytes (String.◌∷◌ c s) = encode (code c) ++ bytes s

-- fnv.New32a: exclusive or, then a product modulo 2^32.
fnv_write : ℕ → List ℕ → ℕ
fnv_write h [] = h
fnv_write h (b ∷ bs) = fnv_write (bit_xor h b * 16777619 % 2 ^ 32) bs

unfoldable pub fnv32a : List ℕ → ℕ
unfolding fnv_write
fnv32a bs = fnv_write 2166136261 bs

-- The host's name without its leading "w"s and dots.
unfoldable pub queue_name : String → String
unfolding trim_left
queue_name name = trim_left name "www."

unfoldable pub guess_host : UrlLib → String → ℕ
unfolding fnv32a queue_name bytes hostname
guess_host urls u = elim (urls.parse u) [
  | none ↦ 0
  | some p ↦ fnv32a (bytes (queue_name (hostname p)))
]

fnv32a_of_a : fnv32a (bytes "a") ≡ 0xe40c292c
unfolding fnv32a bytes
fnv32a_of_a = refl

fnv_write-lt : (h : ℕ) (bs : List ℕ) → h < 2 ^ 32 → fnv_write h bs < 2 ^ 32
unfolding fnv_write
fnv_write-lt h [] p = p
fnv_write-lt h (b ∷ bs) p = fnv_write-lt (bit_xor h b * 16777619 % 2 ^ 32) bs (omega arith)

-- A key of the host queues is a uint32.
pub guess_host-lt : (urls : UrlLib) (u : String) → guess_host urls u < 2 ^ 32
unfolding guess_host
guess_host-lt urls u = elim (Option-cases (urls.parse u)) [
  | inl bad ↦ rw (bad, guess_host) (omega arith)
  | inr (p, good) ↦
      rw (good, guess_host)
        (fnv_write-lt 2166136261 (bytes (queue_name (hostname p))) (omega arith))
]
