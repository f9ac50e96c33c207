-- ===== src/Base/Maps.antt =====
-- Go's maps with an integer or a 32-byte key: association lists over ℕ, in any order of iteration.
-- A map of maps is read and written the way `m[e][k]` is: a missing inner map reads as empty, and
-- `ensure` is the `if _, ok := m[e]; !ok { m[e] = make(...) }` that stands before each write.
use Prim.Native.Nat.{ℕ}
use mathlib.Core.Path.{◌≡◌, refl}
use mathlib.Core.Bool.{true, ◌&&◌}
use mathlib.Core.Option.{Option, none, some}
use mathlib.Core.List.{List, [], ◌∷◌}
use native.Mathlib.Omega.{arith}
use opt.Base.Tests.{◌==◌, if◌then◌else◌, is_some, ltb}

abbrev pub Map {ℓ} : Type ℓ → Type ℓ
Map V = List (ℕ × V)

module _ {ℓ} {V : Type ℓ} where
  unfoldable pub lookup : ℕ → Map V → Option V
  lookup k [] = none
  lookup k ((j, v) ∷ m) = if j == k then some v else lookup k m

  unfoldable pub insert : ℕ → V → Map V → Map V
  insert k v [] = (k, v) ∷ []
  insert k v ((j, w) ∷ m) = if j == k then (k, v) ∷ m else (j, w) ∷ insert k v m

  unfoldable pub delete : ℕ → Map V → Map V
  delete k [] = []
  delete k ((j, v) ∷ m) = let rest = delete k m in if j == k then rest else (j, v) ∷ rest

  -- `for e := range m { if e < bound { delete(m, e) } }`
  unfoldable pub delete_below : ℕ → Map V → Map V
  delete_below bound [] = []
  delete_below bound ((j, v) ∷ m) =
      let rest = delete_below bound m in if ltb j bound then rest else (j, v) ∷ rest

  lookup-nil : (k : ℕ) → lookup k [] ≡ none
  unfolding lookup
  lookup-nil k = refl

  pub lookup-insert :
      (new asked : ℕ) (v : V) (m : Map V)
      → lookup asked (insert new v m) ≡ (if new == asked then some v else lookup asked m)
  unfolding lookup insert
  lookup-insert new asked v [] = refl
  lookup-insert new asked v (entry ∷ m) = ground (arith, lookup-insert new asked v m)

  pub lookup-delete :
      (k j : ℕ) (m : Map V) → lookup j (delete k m) ≡ (if k == j then none else lookup j m)
  unfolding lookup delete
  lookup-delete k j [] = ground arith
  lookup-delete k j ((i, w) ∷ m) = ground (arith, lookup-delete k j m)

  pub lookup-delete_below :
      (b j : ℕ) (m : Map V) → lookup j (delete_below b m) ≡ (if ltb j b then none else lookup j m)
  unfolding lookup delete_below
  lookup-delete_below b j [] = ground arith
  lookup-delete_below b j ((i, w) ∷ m) = ground (arith, lookup-delete_below b j m)

module _ {ℓ} {V : Type ℓ} where
  unfoldable pub ensure : ℕ → Map (Map V) → Map (Map V)
  ensure e m = if is_some (lookup e m) then m else insert e [] m

  unfoldable pub inner : ℕ → Map (Map V) → Map V
  inner e m = elim (lookup e m) [ none ↦ [] | some i ↦ i ]

  unfoldable pub lookup_at : ℕ → ℕ → Map (Map V) → Option V
  unfolding inner
  lookup_at e k m = lookup k (inner e m)

  -- `m[e][k] = v`; Go panics where `m[e]` is absent, which `ensure` rules out.
  unfoldable pub store : ℕ → ℕ → V → Map (Map V) → Map (Map V)
  unfolding inner
  store e k v m = insert e (insert k v (inner e m)) m

  pub lookup_at-ensure :
      (e j q : ℕ) (m : Map (Map V)) → lookup_at j q (ensure e m) ≡ lookup_at j q m
  unfolding lookup_at ensure
  lookup_at-ensure e j q m = ground (arith, lookup-insert e j [] m, lookup-nil {V = V} q)

  pub lookup_at-store :
      (e k j q : ℕ) (v : V) (m : Map (Map V))
      → lookup_at j q (store e k v m) ≡ (if (e == j) && (k == q) then some v else lookup_at j q m)
  unfolding lookup_at store
  lookup_at-store e k j q v m =
      ground (arith, lookup-insert e j (insert k v (inner e m)) m, lookup-insert k q v (inner e m))

  -- What is in an inner map is in the outer one.
  pub lookup_at-outer :
      (e k : ℕ) (m : Map (Map V)) → is_some (lookup_at e k m) ≡ true → is_some (lookup e m) ≡ true
  unfolding lookup_at
  lookup_at-outer e k m h = ground (arith, lookup-nil {V = V} k)

  -- After `ensure` the inner map is there, so the write that follows does not panic.
  pub ensure_some : (e : ℕ) (m : Map (Map V)) → is_some (lookup e (ensure e m)) ≡ true
  unfolding ensure
  ensure_some e m = ground (arith, lookup-insert e e [] m)

  pub lookup_at-delete_below :
      (b j q : ℕ) (m : Map (Map V))
      → lookup_at j q (delete_below b m) ≡ (if ltb j b then none else lookup_at j q m)
  unfolding lookup_at
  lookup_at-delete_below b j q m = ground (arith, lookup-delete_below b j m, lookup-nil {V = V} q)

pub ruleset map_laws = (
  lookup-insert, lookup-delete, lookup-delete_below, lookup_at-ensure, lookup_at-store,
  lookup_at-delete_below,
)
