-- ===== src/Authority/Topology/Shuffle.antt =====
-- `nodes[perm[0]], nodes[perm[1]], ...`: a list read in the order of a permutation of its indices.
use mathlib.Core.List.Permᴰ
use mathlib.Core.List.{Permᴰ, map-map}
use opt.Base.{
  ℕ, zero, suc, List, [], ◌∷◌, map, Option, none, some, ◌≡◌, refl, ap, ◌∙◌, arith, length,
  get_elem?,
}

abbrev pub cons_opt {ℓ} : {A : Type ℓ} → A → Option (List A) → Option (List A)
cons_opt x none = none
cons_opt x (some xs) = some (x ∷ xs)

abbrev collect {ℓ} : {A : Type ℓ} → List (Option A) → Option (List A)
collect [] = some []
collect (none ∷ l) = none
collect (some x ∷ l) = cons_opt x (collect l)

-- 0, 1, ..., n - 1
abbrev pub range : ℕ → List ℕ
range zero = []
range (suc n) = 0 ∷ map suc (range n)

module _ {ℓ} {A : Type ℓ} where
  -- An index out of range gives `none`.
  unfoldable pub pick : List A → List ℕ → Option (List A)
  pick xs is = collect (map (get_elem? xs) is)

  collect-get : (xs : List A) → collect (map (get_elem? xs) (range (length xs))) ≡ some xs
  collect-get [] = refl
  collect-get (x ∷ xs) =
      ap (cons_opt x)
        (ap collect (map-map (get_elem? (x ∷ xs)) suc (range (length xs))) ∙ collect-get xs)

  collect-cons :
      (o : Option A) (l : List (Option A)) {ys : List A}
      → collect (o ∷ l) ≡ some ys
      → (x : A) × (xs : List A) × (o ≡ some x) × (collect l ≡ some xs) × (ys ≡ x ∷ xs)
  collect-cons none l h = cc
  collect-cons (some x) l {ys} h = go (collect l) refl
    where
      go :
          (c : Option (List A))
          → collect l ≡ c
          → (x' : A) × (xs : List A) × (some x ≡ some x') × (collect l ≡ some xs) × (ys ≡ x' ∷ xs)
      go none e = cc (e, h)
      go (some xs) e = (x, xs, refl, e, ground arith)

  collect-perm :
      {l m : List (Option A)}
      → Permᴰ l m
      → {ys : List A} → collect m ≡ some ys
      → (zs : List A) × (collect l ≡ some zs) × Permᴰ zs ys
  collect-perm Permᴰ.nil {ys} h = (ys, h, Permᴰ.refl ys)
  collect-perm (Permᴰ.cons {a = a} {b = b} {l₁ = l₁} {l₂ = l₂} e p) h =
      let (x, xs, ex, exs, eys) = collect-cons b l₂ h in
      let (zs, ez, q) = collect-perm p exs in (x ∷ zs, rw (e, ex, ez), rw eys (Permᴰ.cons refl q))
  collect-perm (Permᴰ.swap {a = a} {b = b} {a' = a'} {b' = b'} {l = l} e e') h =
      let (x, xs, ex, exs, eys) = collect-cons a' (b' ∷ l) h in
      let (y, zs, ey, ezs, exs') = collect-cons b' l exs in
      (y ∷ x ∷ zs, rw (e, e', ex, ey, ezs), rw (eys, exs') (Permᴰ.swap refl refl))
  collect-perm (Permᴰ.trans p q) h =
      let (zs, ez, r) = collect-perm q h in
      let (ws, ew, t) = collect-perm p ez in (ws, ew, Permᴰ.trans t r)

  -- A permutation of the indices reads every element once.
  pub pick-perm :
      (xs : List A) (is : List ℕ)
      → Permᴰ is (range (length xs))
      → (ys : List A) × (pick xs is ≡ some ys) × Permᴰ ys xs
  unfolding pick
  pick-perm xs is p = collect-perm (Permᴰ.map (get_elem? xs) p) (collect-get xs)
