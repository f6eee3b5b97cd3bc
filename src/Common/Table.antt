-- ===== src/Common/Table.antt =====
-- A Go `map[string]V` as an association list. Its order stands for the unspecified iteration order.
use go_dark_web_crawler.Common.{
  Bool, ◌+◌, ◌≤◌, ◌<◌, ◌≡◌, refl, Option, none, some, List, [], ◌∷◌, arith, length, All,
  if◌then◌else◌,
}
use go_dark_web_crawler.Common.Text.{Bytes, bytes_eq, bytes_eq_iff}

module _ {ℓ} {V : Type ℓ} where
  unfoldable pub lookup : Bytes → List (Bytes × V) → Option V
  lookup k [] = none
  lookup k ((j, v) ∷ m) = if bytes_eq j k then some v else lookup k m

  -- `m[k] = v`.
  unfoldable pub assign : Bytes → V → List (Bytes × V) → List (Bytes × V)
  assign k v [] = (k, v) ∷ []
  assign k v ((j, w) ∷ m) = if bytes_eq j k then (k, v) ∷ m else (j, w) ∷ assign k v m

  -- `delete(m, k)`.
  unfoldable pub delete : Bytes → List (Bytes × V) → List (Bytes × V)
  delete k [] = []
  delete k ((j, w) ∷ m) = if bytes_eq j k then delete k m else (j, w) ∷ delete k m

  pub lookup-assign :
      (k j : Bytes) (v : V) (m : List (Bytes × V))
      → lookup j (assign k v m) ≡ (if bytes_eq k j then some v else lookup j m)
  unfolding lookup assign
  lookup-assign k j v [] = refl
  lookup-assign k j v ((i, w) ∷ m) =
      ground (arith, bytes_eq_iff k j, bytes_eq_iff i k, bytes_eq_iff i j, lookup-assign k j v m)

  pub lookup-delete :
      (k j : Bytes) (m : List (Bytes × V))
      → lookup j (delete k m) ≡ (if bytes_eq k j then none else lookup j m)
  unfolding lookup delete
  lookup-delete k j [] = ground arith
  lookup-delete k j ((i, w) ∷ m) =
      ground (arith, bytes_eq_iff k j, bytes_eq_iff i k, bytes_eq_iff i j, lookup-delete k j m)

  pub length-assign-le :
      (k : Bytes) (v : V) (m : List (Bytes × V)) → length (assign k v m) ≤ length m + 1
  unfolding assign
  length-assign-le k v [] = omega arith
  length-assign-le k v ((i, w) ∷ m) = ground (arith, length-assign-le k v m)

  pub length-assign_old :
      (k : Bytes) (v w : V) (m : List (Bytes × V))
      → lookup k m ≡ some w
      → length (assign k v m) ≡ length m
  unfolding lookup assign
  length-assign_old k v w [] e = cc
  length-assign_old k v w ((i, x) ∷ m) e = ground (arith, length-assign_old k v w m)

  pub length-delete-le : (k : Bytes) (m : List (Bytes × V)) → length (delete k m) ≤ length m
  unfolding delete
  length-delete-le k [] = omega arith
  length-delete-le k ((i, w) ∷ m) = ground (arith, length-delete-le k m)

  pub length-delete-lt :
      (k : Bytes) (v : V) (m : List (Bytes × V))
      → lookup k m ≡ some v
      → length (delete k m) < length m
  unfolding lookup delete
  length-delete-lt k v [] e = cc
  length-delete-lt k v ((i, w) ∷ m) e = ground (arith, length-delete-lt k v m, length-delete-le k m)

  pub All-assign {κ} :
      (P : Bytes × V → Type κ) (k : Bytes) (v : V) (m : List (Bytes × V))
      → P (k, v)
      → All P m
      → All P (assign k v m)
  unfolding assign
  All-assign P k v [] p h = (p, tt)
  All-assign P k v ((i, w) ∷ m) p h = ground (arith, All-assign P k v m p h.1)

  -- `for k, v := range m { if !p(v) { delete(m, k) } }`.
  unfoldable pub keep_values : (V → Bool) → List (Bytes × V) → List (Bytes × V)
  keep_values p [] = []
  keep_values p ((k, v) ∷ m) = if p v then (k, v) ∷ keep_values p m else keep_values p m

  -- No key stands twice: what a Go map gives for nothing.
  abbrev pub Unique : List (Bytes × V) → Type ℓ
  Unique [] = Unit
  Unique ((k, v) ∷ m) = (lookup k m ≡ none) × Unique m

  abbrev pub only_if : (V → Bool) → Option V → Option V
  only_if p none = none
  only_if p (some v) = if p v then some v else none

  pub lookup-keep_values :
      (p : V → Bool) (k : Bytes) (m : List (Bytes × V))
      → Unique m
      → lookup k (keep_values p m) ≡ only_if p (lookup k m)
  unfolding lookup keep_values
  lookup-keep_values p k [] u = refl
  lookup-keep_values p k ((j, v) ∷ m) u =
      ground (arith, lookup-keep_values p k m u.1, bytes_eq_iff j k, u.0)

  pub lookup-keep_values-none :
      (p : V → Bool) (k : Bytes) (m : List (Bytes × V))
      → lookup k m ≡ none
      → lookup k (keep_values p m) ≡ none
  unfolding lookup keep_values
  lookup-keep_values-none p k [] e = refl
  lookup-keep_values-none p k ((j, v) ∷ m) e = ground (arith, lookup-keep_values-none p k m)

  pub keep_values-Unique :
      (p : V → Bool) (m : List (Bytes × V)) → Unique m → Unique (keep_values p m)
  unfolding keep_values
  keep_values-Unique p [] u = tt
  keep_values-Unique p ((k, v) ∷ m) u =
      ground (arith, keep_values-Unique p m u.1, lookup-keep_values-none p k m u.0)

  pub length-keep_values-le :
      (p : V → Bool) (m : List (Bytes × V)) → length (keep_values p m) ≤ length m
  unfolding keep_values
  length-keep_values-le p [] = omega arith
  length-keep_values-le p ((k, v) ∷ m) = ground (arith, length-keep_values-le p m)

  pub All-keep_values {κ} :
      (P : Bytes × V → Type κ) (p : V → Bool) (m : List (Bytes × V))
      → All P m
      → All P (keep_values p m)
  unfolding keep_values
  All-keep_values P p [] h = tt
  All-keep_values P p ((k, v) ∷ m) h = ground (arith, All-keep_values P p m h.1)

  pub assign-Unique : (k : Bytes) (v : V) (m : List (Bytes × V)) → Unique m → Unique (assign k v m)
  unfolding assign lookup
  assign-Unique k v [] u = (refl, tt)
  assign-Unique k v ((j, w) ∷ m) u =
      ground
        (arith, assign-Unique k v m u.1, lookup-assign k j v m, bytes_eq_iff k j, bytes_eq_iff j k)

  pub delete-Unique : (k : Bytes) (m : List (Bytes × V)) → Unique m → Unique (delete k m)
  unfolding delete
  delete-Unique k [] u = tt
  delete-Unique k ((j, w) ∷ m) u = ground (arith, delete-Unique k m u.1, lookup-delete k j m)
