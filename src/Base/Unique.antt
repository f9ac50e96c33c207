-- ===== src/Base/Unique.antt =====
-- Maps that hold one entry for a key, as Go's maps do, and the list of their values.
use mathlib.Core.List.Permᴰ
use mathlib.Core.List.{Permᴰ, List, [], ◌∷◌, ◌++◌}
use mathlib.Core.Path.{◌≡◌, refl, subst, subst₂, ap, ◌∙◌}
use mathlib.Core.Logic.{◌≢◌, inl, inr}
use mathlib.Core.Option.{none, some}
use native.Mathlib.Omega.{arith}
use Prim.Native.Nat.{ℕ}
use opt.Base.Tests.{◌==◌, ==_iff, Bool-cases, some-inj, if◌then◌else◌}
use opt.Base.Lists.{All}
use opt.Base.Maps.{Map, lookup, insert, delete}
use opt.Base.Perms.{Distinct, Distinct-perm}

abbrev pub key {ℓ} : {V : Type ℓ} → ℕ × V → ℕ
key e = e.0

abbrev pub values {ℓ} : {V : Type ℓ} → Map V → List V
values [] = []
values ((k, v) ∷ m) = v ∷ values m

-- A map holds one entry for a key.
abbrev pub IsMap {ℓ} : {V : Type ℓ} → Map V → Type 0
IsMap m = Distinct key m

module _ {ℓ} {V : Type ℓ} where
  pub delete_absent : (a : ℕ) (m : Map V) → All (λ e. a ≢ key e) m → delete a m ≡ m
  unfolding delete
  delete_absent a [] h = refl
  delete_absent a ((b, v) ∷ m) h = ground (arith, delete_absent a m h.1)

  pub lookup_absent : (a : ℕ) (m : Map V) → All (λ e. a ≢ key e) m → lookup a m ≡ none
  unfolding lookup
  lookup_absent a [] h = refl
  lookup_absent a ((b, v) ∷ m) h = ground (arith, lookup_absent a m h.1)

  pub insert_absent :
      (a : ℕ) (v : V) (m : Map V) → All (λ e. a ≢ key e) m → insert a v m ≡ m ++ (a, v) ∷ []
  unfolding insert
  insert_absent a v [] h = refl
  insert_absent a v ((b, w) ∷ m) h = ground (arith, insert_absent a v m h.1)

  pub All-delete {κ} : (P : ℕ × V → Type κ) (a : ℕ) (m : Map V) → All P m → All P (delete a m)
  unfolding delete
  All-delete P a [] h = tt
  All-delete P a ((b, v) ∷ m) h = elim (Bool-cases (b == a)) [
    | inl e ↦ rw e (All-delete P a m h.1)
    | inr e ↦ rw e (h.0, All-delete P a m h.1)
  ]

  pub delete-IsMap : (a : ℕ) (m : Map V) → IsMap m → IsMap (delete a m)
  unfolding delete
  delete-IsMap a [] h = tt
  delete-IsMap a ((b, v) ∷ m) h = elim (Bool-cases (b == a)) [
    | inl e ↦ rw e (delete-IsMap a m h.1)
    | inr e ↦ rw e (All-delete _ a m h.0, delete-IsMap a m h.1)
  ]

  -- Taking the entry of a key out of a map.
  pub values-delete :
      (a : ℕ) {v : V} (m : Map V)
      → IsMap m
      → lookup a m ≡ some v
      → Permᴰ (values m) (v ∷ values (delete a m))
  unfolding lookup delete
  values-delete a [] h e = cc
  values-delete a ((b, w) ∷ m) h e = elim (Bool-cases (b == a)) [
    | inl q ↦
        let same : some w ≡ some _ = rw q at e in
        rw
          (
            q,
            some-inj same,
            delete_absent a m (subst (λ c. All (λ e. c ≢ key e) m) ((==_iff b a).0 q) h.0),
          )
          (Permᴰ.refl _)
    | inr q ↦
        rw q
          (Permᴰ.trans (Permᴰ.cons refl (values-delete a m h.1 (rw q at e))) (Permᴰ.swap refl refl))
  ]

  swap_lookup :
      (a : ℕ) (x y : ℕ × V) (l : Map V)
      → key x ≢ key y
      → lookup a (x ∷ y ∷ l) ≡ lookup a (y ∷ x ∷ l)
  unfolding lookup
  swap_lookup a (b, v) (c, w) l h = ground arith

  delete_cons :
      (a : ℕ) (x : ℕ × V) (l m : Map V)
      → Permᴰ (delete a l) (delete a m)
      → Permᴰ (delete a (x ∷ l)) (delete a (x ∷ m))
  unfolding delete
  delete_cons a (b, v) l m p = elim (Bool-cases (b == a)) [
    | inl e ↦ rw e p
    | inr e ↦ rw e (Permᴰ.cons refl p)
  ]

  delete_swap :
      (a : ℕ) (x y : ℕ × V) (l : Map V) → Permᴰ (delete a (x ∷ y ∷ l)) (delete a (y ∷ x ∷ l))
  unfolding delete
  delete_swap a (b, v) (c, w) l = elim (Bool-cases (b == a)) [
    | inl e ↦ rw e (Permᴰ.refl _)
    | inr e ↦ elim (Bool-cases (c == a)) [
      | inl e' ↦ rw (e, e') (Permᴰ.refl _)
      | inr e' ↦ rw (e, e') (Permᴰ.swap refl refl)
    ]
  ]

  pub delete-perm : (a : ℕ) {m n : Map V} → Permᴰ m n → Permᴰ (delete a m) (delete a n)
  delete-perm a Permᴰ.nil = Permᴰ.refl _
  delete-perm a (Permᴰ.cons {a = x} {l₁ = l} {l₂ = l'} e p) =
      subst (λ z. Permᴰ (delete a (x ∷ l)) (delete a (z ∷ l'))) e
        (delete_cons a x l l' (delete-perm a p))
  delete-perm a (Permᴰ.swap {a = x} {b = y} {l = l} e e') =
      subst₂ (λ z w. Permᴰ (delete a (x ∷ y ∷ l)) (delete a (z ∷ w ∷ l))) e' e (delete_swap a x y l)
  delete-perm a (Permᴰ.trans p q) = Permᴰ.trans (delete-perm a p) (delete-perm a q)

  pub values-perm : {m n : Map V} → Permᴰ m n → Permᴰ (values m) (values n)
  values-perm Permᴰ.nil = Permᴰ.nil
  values-perm (Permᴰ.cons e p) = Permᴰ.cons (ap (λ (x : ℕ × V). x.1) e) (values-perm p)
  values-perm (Permᴰ.swap e e') =
      Permᴰ.swap (ap (λ (x : ℕ × V). x.1) e) (ap (λ (x : ℕ × V). x.1) e')
  values-perm (Permᴰ.trans p q) = Permᴰ.trans (values-perm p) (values-perm q)

  pub values-append : (m n : Map V) → values (m ++ n) ≡ values m ++ values n
  values-append [] n = refl
  values-append ((a, v) ∷ m) n = rw (values-append m n)

  -- Two orders of one map look up and delete alike.
  pub lookup-perm : (a : ℕ) {m n : Map V} → Permᴰ m n → IsMap m → lookup a m ≡ lookup a n
  unfolding lookup
  lookup-perm a Permᴰ.nil h = refl
  lookup-perm a (Permᴰ.cons {a = x} {b = y} {l₁ = l} {l₂ = l'} e p) h =
      subst (λ z. lookup a (x ∷ l) ≡ lookup a (z ∷ l')) e
        (ap (λ o. if x.0 == a then some x.1 else o) (lookup-perm a p h.1))
  lookup-perm a (Permᴰ.swap {a = x} {b = y} {l = l} e e') h =
      subst₂ (λ z w. lookup a (x ∷ y ∷ l) ≡ lookup a (z ∷ w ∷ l)) e' e (swap_lookup a x y l h.0.0)
  lookup-perm a (Permᴰ.trans p q) h = lookup-perm a p h ∙ lookup-perm a q (Distinct-perm key p h)
