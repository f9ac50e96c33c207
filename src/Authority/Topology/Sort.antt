-- ===== src/Authority/Topology/Sort.antt =====
-- sortNodesByPublicKey of pki/server/state.go. `sort.Slice` leaves the order of equal elements
-- open; the theorems are about lists without equal keys, where the sorted order is unique.
use mathlib.Core.List.Permᴰ
use mathlib.Core.List.{Permᴰ}
use opt.Base.{
  ℕ, ◌≤◌, List, [], ◌∷◌, ◌≡◌, ◌≢◌, refl, ◌∙◌, arith, leb, if◌then◌else◌, All, inl, inr, Bool-cases,
}
use opt.Base.Perms.{Distinct, Distinct-perm, All-perm}

module _ {ℓ} {A : Type ℓ} (f : A → ℕ) where
  unfoldable pub insert_by : A → List A → List A
  insert_by x [] = x ∷ []
  insert_by x (y ∷ ys) =
      let rest = insert_by x ys in if leb (f x) (f y) then x ∷ y ∷ ys else y ∷ rest

  unfoldable pub sort_by : List A → List A
  unfolding insert_by
  sort_by [] = []
  sort_by (x ∷ xs) = insert_by x (sort_by xs)

  abbrev pub IsSorted : List A → Type 0
  IsSorted [] = Unit
  IsSorted (x ∷ xs) = All (λ y. f x ≤ f y) xs × IsSorted xs

  insert_by-perm : (x : A) (xs : List A) → Permᴰ (insert_by x xs) (x ∷ xs)
  unfolding insert_by
  insert_by-perm x [] = Permᴰ.refl (x ∷ [])
  insert_by-perm x (y ∷ ys) = elim (Bool-cases (leb (f x) (f y))) [
    | inl e ↦ rw e (Permᴰ.refl (x ∷ y ∷ ys))
    | inr e ↦ rw e (Permᴰ.trans (Permᴰ.cons refl (insert_by-perm x ys)) (Permᴰ.swap refl refl))
  ]

  -- Sorting moves the nodes and neither drops nor repeats one.
  pub sort_by-perm : (xs : List A) → Permᴰ (sort_by xs) xs
  unfolding sort_by
  sort_by-perm [] = Permᴰ.nil
  sort_by-perm (x ∷ xs) =
      Permᴰ.trans (insert_by-perm x (sort_by xs)) (Permᴰ.cons refl (sort_by-perm xs))

  All-le_trans : (a b : ℕ) (xs : List A) → a ≤ b → All (λ y. b ≤ f y) xs → All (λ y. a ≤ f y) xs
  All-le_trans a b [] h k = tt
  All-le_trans a b (x ∷ xs) h k = (omega arith, All-le_trans a b xs h k.1)

  insert_by-IsSorted : (x : A) (xs : List A) → IsSorted xs → IsSorted (insert_by x xs)
  unfolding insert_by
  insert_by-IsSorted x [] h = (tt, tt)
  insert_by-IsSorted x (y ∷ ys) h = elim (Bool-cases (leb (f x) (f y))) [
    | inl e ↦ rw e (((ground arith), All-le_trans (f x) (f y) ys (ground arith) h.0), h)
    | inr e ↦ rw e (
      All-perm _ (Permᴰ.symm (insert_by-perm x ys)) ((ground arith), h.0),
      insert_by-IsSorted x ys h.1,
    )
  ]

  pub sort_by-IsSorted : (xs : List A) → IsSorted (sort_by xs)
  unfolding sort_by
  sort_by-IsSorted [] = tt
  sort_by-IsSorted (x ∷ xs) = insert_by-IsSorted x (sort_by xs) (sort_by-IsSorted xs)

  insert_by_comm :
      (x y : A) (zs : List A)
      → f x ≢ f y
      → insert_by x (insert_by y zs) ≡ insert_by y (insert_by x zs)
  unfolding insert_by
  insert_by_comm x y [] h = ground arith
  insert_by_comm x y (z ∷ zs) h = ground (arith, insert_by_comm x y zs)

  -- Two orders of the same nodes, as two walks over a map give, are sorted to one list.
  pub sort_by-perm_eq : {xs ys : List A} → Permᴰ xs ys → Distinct f xs → sort_by xs ≡ sort_by ys
  unfolding sort_by
  sort_by-perm_eq Permᴰ.nil h = refl
  sort_by-perm_eq (Permᴰ.cons e p) h = cc (e, sort_by-perm_eq p h.1)
  sort_by-perm_eq (Permᴰ.swap {a = a} {b = b} {l = l} e e') h =
      cc (e, e', insert_by_comm a b (sort_by l) h.0.0)
  sort_by-perm_eq (Permᴰ.trans p q) h =
      sort_by-perm_eq p h ∙ sort_by-perm_eq q (Distinct-perm f p h)
