-- ===== src/Authority/Topology/Deal.antt =====
-- The round-robin loops of generateTopology and generateRandomTopology in pki/server/state.go:
-- `topology[layer] = append(topology[layer], n); layer++; layer = layer % len(topology)`.
use mathlib.Core.List.Permᴰ
use mathlib.Core.List.{Permᴰ, append_assoc}
use native.Mathlib.Decide.{dec_lt}
use native.Mathlib.Nat.{mod-lt, div-eq_of_lt-le, mod-eq-sub-div-mul}
use opt.Base.{
  ℕ, zero, suc, ◌+◌, ◌%◌, ◌*◌, ◌/◌, ◌≤◌, ◌<◌, List, [], ◌∷◌, ◌++◌, Option, none, some, ◌≡◌, refl,
  ap, ◌∙◌, arith, length, length-append, ◌⊎◌, inl, inr, subst, some-inj,
}
use opt.Base.Outcome.{Outcome, ok, ok-inj, ◌>>=◌, or_panic}
use opt.Base.Perms.{perm_front}
use opt.Authority.Topology.Shuffle.{cons_opt}

-- `layer++; layer = layer % n` goes to the next layer, or back to the first.
wrap : (r n : ℕ) → r < n → ((suc r < n) × ((r + 1) % n ≡ suc r)) ⊎ ((suc r ≡ n) × ((r + 1) % n ≡ 0))
wrap r n h = elim (dec_lt (suc r) n) [
  | yes p ↦ inl (p, grind arith)
  | no p ↦ inr (omega arith, grind arith)
]

cons_opt-eq {ℓ} :
    {A : Type ℓ} (s : A) (o : Option (List A)) {t : List A}
    → cons_opt s o ≡ some t
    → (u : List A) × (o ≡ some u) × (s ∷ u ≡ t)
cons_opt-eq s none h = cc
cons_opt-eq s (some u) h = (u, refl, some-inj h)

module _ {ℓ} {A : Type ℓ} where
  -- topology[i] = append(topology[i], a); none where the index is out of range
  unfoldable pub append_at : ℕ → A → List (List A) → Option (List (List A))
  append_at i a [] = none
  append_at zero a (s ∷ ss) = some ((s ++ a ∷ []) ∷ ss)
  append_at (suc i) a (s ∷ ss) = cons_opt s (append_at i a ss)

  unfoldable pub deal : ℕ → List A → List (List A) → Outcome (List (List A))
  deal layer [] t = ok t
  deal layer (n ∷ ns) t = do
    t' ← or_panic (append_at layer n t)
    deal ((layer + 1) % length t') ns t'

  abbrev pub flatten : List (List A) → List A
  flatten [] = []
  flatten (s ∷ ss) = s ++ flatten ss

  -- The first `r` layers hold `b + 1` nodes and the others hold `b`.
  abbrev pub Level : ℕ → ℕ → List (List A) → Type 0
  Level b r [] = Unit {0}
  Level b zero (s ∷ ss) = (length s ≡ b) × Level b zero ss
  Level b (suc r) (s ∷ ss) = (length s ≡ suc b) × Level b r ss

  -- Adding a node to layer `i` in range succeeds, keeps the number of layers, and adds just that
  -- node.
  pub append_at-perm :
      (i : ℕ) (a : A) (t : List (List A))
      → i < length t
      → (t' : List (List A)) × (append_at i a t ≡ some t')
        × (length t' ≡ length t)
        × Permᴰ (flatten t') (a ∷ flatten t)
  unfolding append_at
  append_at-perm i a [] h = absurd (omega arith)
  append_at-perm zero a (s ∷ ss) h =
      ((s ++ a ∷ []) ∷ ss, refl, refl, rw append_assoc (perm_front a s (flatten ss)))
  append_at-perm (suc i) a (s ∷ ss) h =
      let (t', e, l, p) = append_at-perm i a ss (omega arith) in
      (s ∷ t', rw e, ap suc l, Permᴰ.trans (Permᴰ.append_left s p) (perm_front a s (flatten ss)))

  append_at-Level :
      (b r : ℕ) (a : A) (t : List (List A)) {t' : List (List A)}
      → Level b r t
      → append_at r a t ≡ some t'
      → Level b (suc r) t'
  unfolding append_at
  append_at-Level b r a [] h e = cc
  append_at-Level b zero a (s ∷ ss) h e =
      subst (Level b 1) (some-inj e) (omega (arith, length-append s (a ∷ [])), h.1)
  append_at-Level b (suc r) a (s ∷ ss) h e =
      let (u, eu, et) = cons_opt-eq s (append_at r a ss) e in
      subst (Level b (suc (suc r))) et (h.0, append_at-Level b r a ss h.1 eu)

  Level-full : (b : ℕ) (t : List (List A)) → Level b (length t) t → Level (suc b) zero t
  Level-full b [] h = tt
  Level-full b (s ∷ ss) h = (h.0, Level-full b ss h.1)

  -- What a deal from layer `r` gives: no panic, as many layers, and every node once.
  abbrev pub Deals : ℕ → List A → List (List A) → Type ℓ
  Deals r ns t =
      (t' : List (List A)) × (deal r ns t ≡ ok t')
      × (length t' ≡ length t)
      × Permᴰ (flatten t') (ns ++ flatten t)

  deal-Deals_cons :
      (r : ℕ) (n : A) (ns : List A) (t u : List (List A))
      → append_at r n t ≡ some u
      → length u ≡ length t
      → Permᴰ (flatten u) (n ∷ flatten t)
      → Deals ((r + 1) % length u) ns u
      → Deals r (n ∷ ns) t
  unfolding deal
  deal-Deals_cons r n ns t u eu lu pu (t', e, l, p) = (
    t',
    rw eu e,
    l ∙ lu,
    Permᴰ.trans p (Permᴰ.trans (Permᴰ.append_left ns pu) (Permᴰ.middle n ns (flatten t))),
  )

  pub deal-Deals : (r : ℕ) (ns : List A) (t : List (List A)) → r < length t → Deals r ns t
  unfolding deal
  deal-Deals r [] t h = (t, refl, refl, Permᴰ.refl (flatten t))
  deal-Deals r (n ∷ ns) t h =
      let (u, eu, lu, pu) = append_at-perm r n t h in
      deal-Deals_cons r n ns t u eu lu pu
        (deal-Deals ((r + 1) % length u) ns u (mod-lt (r + 1) (omega arith)))

  -- The sizes after a deal are again those of an unfinished round.
  abbrev pub Leveled : List (List A) → Type 0
  Leveled t = (b : ℕ) × (c : ℕ) × (c < length t) × Level b c t

  pub deal-Leveled :
      (b r : ℕ) (ns : List A) (t : List (List A)) {t' : List (List A)}
      → r < length t
      → Level b r t
      → deal r ns t ≡ ok t'
      → Leveled t'
  unfolding deal
  deal-Leveled b r [] t h lev e = subst Leveled (ok-inj e) (b, r, h, lev)
  deal-Leveled b r (n ∷ ns) t {t'} h lev e =
      let (u, eu, lu, pu) = append_at-perm r n t h in
      let lev' = append_at-Level b r n t lev eu in
      let e' : deal ((r + 1) % length u) ns u ≡ ok t' = rw eu at e in
      elim (wrap r (length u) (omega arith)) [
        | inl (lt, w) ↦ deal-Leveled b (suc r) ns u lt lev' (rw w at e')
        | inr (end, w) ↦
            deal-Leveled (suc b) zero ns u (omega arith) (Level-full b u (rw (← end) lev'))
              (rw w at e')
      ]

  -- The sizes add up, so they are the quotient and the remainder.
  length-Level :
      (b c : ℕ) (t : List (List A))
      → c ≤ length t
      → Level b c t
      → length (flatten t) ≡ b * length t + c
  length-Level b zero [] h lev = omega arith
  length-Level b (suc c) [] h lev = absurd (omega arith)
  length-Level b zero (s ∷ ss) h lev =
      omega (arith, length-append s (flatten ss), length-Level b zero ss (omega arith) lev.1)
  length-Level b (suc c) (s ∷ ss) h lev =
      omega (arith, length-append s (flatten ss), length-Level b c ss (omega arith) lev.1)

  pub Leveled-div :
      (n : ℕ) (t : List (List A))
      → length (flatten t) ≡ n
      → Leveled t
      → Level (n / length t) (n % length t) t
  Leveled-div n t e (b, c, lt, lev) =
      let total = length-Level b c t (omega arith) lev in
      let q : n / length t ≡ b = div-eq_of_lt-le {k = b} (length t) (omega arith) (omega arith) in
      let r : n % length t ≡ c =
        omega (arith, mod-eq-sub-div-mul n (length t), ap (λ (d : ℕ). d * length t) q) in
      rw (q, r) lev
