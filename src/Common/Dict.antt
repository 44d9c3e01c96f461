-- ===== src/Common/Dict.antt =====
-- Go's `map` as an association list: a key is bound once, and `lookup` finds its first binding.
use mathlib.Core.Path.{◌≡◌, refl}
use mathlib.Core.Bool.{Bool, true}
use mathlib.Core.List.{List, [], ◌∷◌}
use mathlib.Core.Option.{Option, none, some}
use native.Mathlib.Omega.{arith}
use tobey.Common.Classes.{Eq, ◌==◌}
use tobey.Common.Lists.{All}
use tobey.Common.Tests.{if◌then◌else◌, is_some, Bool-cases}
use mathlib.Core.Path.{subst, sym}
use mathlib.Core.Logic.{inl, inr}
use mathlib.Core.Option.{some-injective}

pub ==_refl {ℓ} : {K : Type ℓ} ⦃e : Eq K⦄ (k : K) → (k == k) ≡ true
==_refl ⦃e⦄ k = (e.beq_iff k k).1 refl

module _ {ℓ κ} {K : Type ℓ} {V : Type κ} ⦃e : Eq K⦄ where
  unfoldable pub delete : K → List (K × V) → List (K × V)
  delete k [] = []
  delete k ((j, w) ∷ d) = if j == k then delete k d else (j, w) ∷ delete k d

  unfoldable pub insert : K → V → List (K × V) → List (K × V)
  insert k v [] = (k, v) ∷ []
  insert k v ((j, w) ∷ d) = if j == k then (j, v) ∷ d else (j, w) ∷ insert k v d

  unfoldable pub lookup : K → List (K × V) → Option V
  lookup k [] = none
  lookup k ((j, v) ∷ d) = if j == k then some v else lookup k d

  unfoldable pub contains_key : K → List (K × V) → Bool
  contains_key k d = is_some (lookup k d)

  pub lookup-insert :
      (k j : K) (v : V) (d : List (K × V))
      → lookup j (insert k v d) ≡ (if k == j then some v else lookup j d)
  unfolding lookup insert
  lookup-insert k j v [] = refl
  lookup-insert k j v ((i, w) ∷ d) =
      ground (arith, e.beq_iff k j, e.beq_iff i k, e.beq_iff i j, lookup-insert k j v d)

  pub lookup-delete :
      (k j : K) (d : List (K × V)) → lookup j (delete k d) ≡ (if k == j then none else lookup j d)
  unfolding lookup delete
  lookup-delete k j [] = ground arith
  lookup-delete k j ((i, w) ∷ d) =
      ground (arith, e.beq_iff k j, e.beq_iff i k, e.beq_iff i j, lookup-delete k j d)

  -- What holds of every binding holds of the one that is found,
  pub All-lookup {μ} :
      (P : K × V → Type μ) (k : K) (d : List (K × V)) (v : V)
      → All P d
      → lookup k d ≡ some v
      → P (k, v)
  unfolding lookup
  All-lookup P k [] v h f = cc
  All-lookup P k ((j, w) ∷ d) v (p, h) f = elim (Bool-cases (j == k)) [
    | inl same ↦
        subst (λ i. P (i, v)) ((e.beq_iff j k).0 same)
          (subst (λ u. P (j, u)) (some-injective w v (ground arith)) p)
    | inr other ↦ All-lookup P k d v h (ground arith)
  ]

  -- and is kept by an insertion of such a binding.
  pub All-insert {μ} :
      (P : K × V → Type μ) (k : K) (v : V) (d : List (K × V))
      → P (k, v)
      → All P d
      → All P (insert k v d)
  unfolding insert
  All-insert P k v [] p h = (p, tt)
  All-insert P k v ((j, w) ∷ d) p (q, h) = elim (Bool-cases (j == k)) [
    | inl same ↦ rw same (subst (λ i. P (i, v)) (sym ((e.beq_iff j k).0 same)) p, h)
    | inr other ↦ rw other (q, All-insert P k v d p h)
  ]
