-- ===== src/Base/Perms.antt =====
-- Permutations: predicates that they keep, and the ways to move elements that the loops use.
use mathlib.Core.List.Permᴰ
use mathlib.Core.List.{Permᴰ, append_assoc}
use opt.Base.Lists.{All, All-append, length}
use mathlib.Core.Path.{◌≡◌, refl, sym, subst, ap, ◌∙◌}
use mathlib.Core.Logic.{◌≢◌}
use mathlib.Core.List.{List, [], ◌∷◌, ◌++◌}
use Prim.Native.Nat.{ℕ, suc}

module _ {ℓ κ} {A : Type ℓ} (P : A → Type κ) where
  pub All-perm : {xs ys : List A} → Permᴰ xs ys → All P xs → All P ys
  All-perm Permᴰ.nil h = h
  All-perm (Permᴰ.cons e p) h = (subst P e h.0, All-perm p h.1)
  All-perm (Permᴰ.swap e e') h = (subst P e' h.1.0, (subst P e h.0, h.1.1))
  All-perm (Permᴰ.trans p q) h = All-perm q (All-perm p h)

-- No two elements of the list have the same key.
abbrev pub Distinct {ℓ} : {A : Type ℓ} → (A → ℕ) → List A → Type 0
Distinct f [] = Unit
Distinct f (x ∷ xs) = All (λ y. f x ≢ f y) xs × Distinct f xs

module _ {ℓ} {A : Type ℓ} (f : A → ℕ) where
  pub Distinct-perm : {xs ys : List A} → Permᴰ xs ys → Distinct f xs → Distinct f ys
  Distinct-perm Permᴰ.nil h = h
  Distinct-perm (Permᴰ.cons {l₂ = l} e p) h =
      (subst (λ a. All (λ y. f a ≢ f y) l) e (All-perm _ p h.0), Distinct-perm p h.1)
  Distinct-perm (Permᴰ.swap {a = a} {b = b} {l = l} e e') h = (
    ((λ q. h.0.0 (ap f e ∙ sym q ∙ sym (ap f e'))), subst (λ c. All (λ y. f c ≢ f y) l) e' h.1.0),
    (subst (λ c. All (λ y. f c ≢ f y) l) e h.0.1, h.1.1),
  )
  Distinct-perm (Permᴰ.trans p q) h = Distinct-perm q (Distinct-perm p h)

  pub Distinct-snoc :
      (x : A) (xs : List A) → Distinct f xs → All (λ y. f x ≢ f y) xs → Distinct f (xs ++ x ∷ [])
  Distinct-snoc x [] d h = (tt, tt)
  Distinct-snoc x (y ∷ ys) d h =
      (All-append _ ys (x ∷ []) d.0 ((λ e. h.0 (sym e)), tt), Distinct-snoc x ys d.1 h.1)

module _ {ℓ} {A : Type ℓ} where
  pub perm_snoc : (x : A) (xs : List A) → Permᴰ (xs ++ x ∷ []) (x ∷ xs)
  perm_snoc x [] = Permᴰ.refl (x ∷ [])
  perm_snoc x (y ∷ ys) = Permᴰ.trans (Permᴰ.cons refl (perm_snoc x ys)) (Permᴰ.swap refl refl)

  -- An element of the middle comes to the front, past whatever precedes it.
  pub perm_front : (x : A) (xs ys : List A) → Permᴰ (xs ++ x ∷ ys) (x ∷ (xs ++ ys))
  perm_front x xs ys = Permᴰ.middle x xs ys

  pub perm_exchange : (xs ys zs : List A) → Permᴰ (xs ++ (ys ++ zs)) (ys ++ (xs ++ zs))
  perm_exchange xs ys zs =
      rw (← append_assoc xs ys zs, ← append_assoc ys xs zs)
        (Permᴰ.append_right zs (Permᴰ.append_comm xs ys))

  -- A swap of material between a front part and a rest, across a middle part that changes too.
  pub perm_across :
      (xs xs' ys ys' zs zs' ws : List A)
      → Permᴰ (ys' ++ ws) (ys ++ zs')
      → Permᴰ (xs' ++ zs') (xs ++ zs)
      → Permᴰ ((xs' ++ ys') ++ ws) ((xs ++ ys) ++ zs)
  perm_across xs xs' ys ys' zs zs' ws p q =
      rw (append_assoc xs' ys' ws, append_assoc xs ys zs)
        (Permᴰ.trans (Permᴰ.append_left xs' p) (
          Permᴰ.trans (perm_exchange xs' ys zs')
            (Permᴰ.trans (Permᴰ.append_left ys q) (perm_exchange ys xs zs))))

  pub length-perm : {xs ys : List A} → Permᴰ xs ys → length xs ≡ length ys
  length-perm Permᴰ.nil = refl
  length-perm (Permᴰ.cons e p) = ap suc (length-perm p)
  length-perm (Permᴰ.swap e e') = refl
  length-perm (Permᴰ.trans p q) = length-perm p ∙ length-perm q
