-- ===== src/Authority/Restore/Bucket.antt =====
-- The descriptors that one bucket of the database gives back.
use opt.Base.{
  ℕ, ◌≡◌, ◌≢◌, ◌↔◌, refl, ap, subst, [], ◌∷◌, Option, none, some, Bool, true, false, not, ◌&&◌,
  ◌||◌, Bytes, Map, lookup, ensure, inner, lookup_at, lookup_at-ensure, lookup_at-store, ◌==◌,
  ==_iff, ==_self, if◌then◌else◌, arith, Option-cases, Bool-cases, inl, inr, All,
}
use opt.Base.Unique.{IsMap, lookup_absent}
use opt.Authority.Types.{Katzenpost, MixDescriptor}
use opt.Authority.State.{State}
use opt.Authority.Descriptor.{is_descriptor_authorized}
use opt.Authority.Restore.Frame.{SameBut, restore_mix-SameBut}
use opt.Authority.Restore.{Restoring, restore_mix, restore_mixes}

abbrev pub or_else : {A : Type 0} → Option A → Option A → Option A
or_else none before = before
or_else (some d) before = some d

-- A descriptor that is restored twice is restored once.
pub twice :
    {A : Type 0} (hit stop more : Bool) (found before mid final : Option A)
    → hit ≡ true
    → stop ≡ false
    → mid ≡ or_else found before
    → final ≡ (if more then or_else found mid else mid)
    → final ≡ (if not stop && (hit || more) then or_else found before else before)
twice hit stop more none before mid final a b m f = ground arith
twice hit stop more (some d) before mid final a b m f = ground arith

pub once :
    {A : Type 0} (hit stop more : Bool) (found before mid final : Option A)
    → hit ≡ false
    → stop ≡ false
    → mid ≡ before
    → final ≡ (if more then or_else found mid else mid)
    → final ≡ (if not stop && (hit || more) then or_else found before else before)
once hit stop more found before mid final a b m f = ground arith

pub alone :
    {A : Type 0} (reached : Bool) (found shown : Option A)
    → shown ≡ (if reached then or_else found none else none)
    → shown ≡ (if reached then found else none)
alone reached none shown e = e
alone reached (some d) shown e = e

pub lookup_at-nil : (j q : ℕ) → lookup_at {V = MixDescriptor} j q [] ≡ none
unfolding lookup_at inner lookup
lookup_at-nil j q = refl

module _ (k : Katzenpost) where
  -- The descriptor in an entry of a bucket, if it is one to bring back.
  unfoldable pub accepted : State → ℕ → Bytes → Option MixDescriptor
  accepted s want_hash raw = elim (k.unmarshal_mix raw) [
    | none ↦ none
    | some desc ↦
        if k.sum256 desc.identity_key == want_hash
        then (if is_descriptor_authorized k desc s then some desc else none)
        else none
  ]

  unfoldable pub in_bucket : State → ℕ → Map Bytes → Option MixDescriptor
  unfolding accepted
  in_bucket s q bucket = elim (lookup q bucket) [ none ↦ none | some raw ↦ accepted s q raw ]

  pub accepted_iff :
      (s : State) (desc : MixDescriptor) (raw : Bytes)
      → is_descriptor_authorized k desc s ≡ true
      → (accepted s (k.sum256 desc.identity_key) raw ≡ some desc)
        ↔ (k.unmarshal_mix raw ≡ some desc)
  unfolding accepted
  accepted_iff s desc raw auth = elim (Option-cases (k.unmarshal_mix raw)) [
    | inl n ↦ ((λ h. absurd (ground arith)), (λ h. absurd (ground arith)))
    | inr (d, n) ↦
        ((λ h. ground arith), (λ h. ground (arith, ==_self (k.sum256 desc.identity_key))))
  ]

  pub in_bucket-found :
      (s : State) (q : ℕ) (bucket : Map Bytes) (raw : Bytes) (reached : Bool)
      → reached ≡ true
      → lookup q bucket ≡ some raw
      → (if reached then in_bucket s q bucket else none) ≡ accepted s q raw
  unfolding in_bucket
  in_bucket-found s q bucket raw reached r e = ground arith

module _ (k : Katzenpost) (rs : Restoring) where
  pub SameBut-accepted :
      (s t : State) (q : ℕ) (raw : Bytes) → SameBut s t → accepted k t q raw ≡ accepted k s q raw
  unfolding accepted is_descriptor_authorized
  SameBut-accepted s t q raw e = ap (λ (u : State). accepted k u q raw) e

  pub SameBut-in_bucket :
      (s t : State) (q : ℕ) (m : Map Bytes) → SameBut s t → in_bucket k t q m ≡ in_bucket k s q m
  unfolding in_bucket
  SameBut-in_bucket s t q m e = elim (Option-cases (lookup q m)) [
    | inl n ↦ rw (n, in_bucket) refl
    | inr (raw, n) ↦ rw (n, in_bucket) (SameBut-accepted s t q raw e)
  ]

  pub restore_mix-lookup :
      (e w j q : ℕ) (raw : Bytes) (s : State)
      → lookup_at j q (restore_mix k rs e (w, raw) s).descriptors ≡ (
          if (e == j) && (w == q)
          then or_else (accepted k s w raw) (lookup_at j q s.descriptors)
          else lookup_at j q s.descriptors)
  unfolding restore_mix accepted
  restore_mix-lookup e w j q raw s = elim (Option-cases (k.unmarshal_mix raw)) [
    | inl n ↦ ground arith
    | inr (d, n) ↦ ground (
      arith,
      lookup_at-store e (k.sum256 d.identity_key) j q d (ensure e s.descriptors),
      lookup_at-ensure e j q s.descriptors,
    )
  ]

  pub restore_mixes-lookup :
      (e j q : ℕ) (m : Map Bytes) (s : State)
      → IsMap m
      → lookup_at j q (restore_mixes k rs e m s).descriptors ≡ (
          if e == j
          then or_else (in_bucket k s q m) (lookup_at j q s.descriptors)
          else lookup_at j q s.descriptors)
  unfolding restore_mixes in_bucket lookup
  restore_mixes-lookup e j q [] s u = ground arith
  restore_mixes-lookup e j q ((w, raw) ∷ m) s u =
      let s' = restore_mix k rs e (w, raw) s in
      let here = restore_mix-lookup e w j q raw s in
      let later = restore_mixes-lookup e j q m s' u.1 in
      let same = SameBut-in_bucket s s' q m (restore_mix-SameBut k rs e (w, raw) s) in
      elim (Bool-cases (w == q)) [
        | inl hit ↦
            let gone : lookup q m ≡ none =
              lookup_absent q m (subst (λ c. All (λ x. c ≢ x.0) m) ((==_iff w q).0 hit) u.0) in
            ground (arith, here, later, same, gone)
        | inr miss ↦ ground (arith, here, later, same)
      ]
