-- ===== src/Authority/Upload/Reveal.antt =====
-- onRevealUpload: which reveals are taken, what a reveal changes, and which reveals panic.
use opt.Base.{
  ℕ, ◌≡◌, ◌≢◌, ◌⊎◌, ◌↔◌, inl, inr, some, none, true, Bytes, lookup, lookup_at, ensure, store,
  is_some, arith, lookup_at-ensure, lookup_at-outer, Option-cases, length, ◌≤◌, ◌<◌,
}
use opt.Authority.Types.{Katzenpost}
use opt.Authority.State.{State}
use opt.Base.Outcome.{ok, panics}
use opt.Authority.Upload.{Upload, Status, done, done_cases, on_reveal_upload, epoch_from_bytes}

module _ (k : Katzenpost) (reveal : Upload) (s : State) where
  abbrev pub revealer : ℕ
  revealer = k.sum256 reveal.public_key

  -- The peer is known, its key certifies at least eight bytes that begin with the voting epoch, it
  -- has committed in that epoch, and has not revealed yet.
  pub record TakesReveal (certified : Bytes) : Type 0 where
    pub authorized : is_some (lookup revealer s.authorized_authorities) ≡ true
    pub signed : k.verify reveal.public_key reveal.payload ≡ some certified
    pub long_enough : 8 ≤ length certified
    pub in_epoch : epoch_from_bytes certified ≡ s.voting_epoch
    pub committed : is_some (lookup_at s.voting_epoch revealer s.commits) ≡ true
    pub first : lookup_at s.voting_epoch revealer s.reveals ≡ none

  abbrev pub with_reveal : State
  with_reveal = record s {
    reveals = store s.voting_epoch revealer reveal.payload (ensure s.voting_epoch s.reveals);
  }

  pub record SameReveals (s' : State) : Type 0 where
    pub reveals_kept : (j q : ℕ) → lookup_at j q s'.reveals ≡ lookup_at j q s.reveals
    pub rest_kept : s' ≡ record s { reveals = s'.reveals }

  same_revealer :
      lookup_at s.voting_epoch revealer (ensure s.voting_epoch s.reveals)
      ≡ lookup_at s.voting_epoch revealer s.reveals
  same_revealer = lookup_at-ensure s.voting_epoch s.voting_epoch revealer s.reveals

  -- The authority panics on a reveal exactly if it is from an authorised peer and its signature
  -- certifies fewer than eight bytes.
  pub on_reveal_upload-panics : (on_reveal_upload k reveal s ≡ panics) ↔ (
      (is_some (lookup revealer s.authorized_authorities) ≡ true)
      × ((certified : Bytes) × (k.verify reveal.public_key reveal.payload ≡ some certified)
          × (length certified < 8)))
  unfolding on_reveal_upload
  on_reveal_upload-panics = (
    λ h. elim (Option-cases (k.verify reveal.public_key reveal.payload)) [
      | inl e ↦ absurd (ground arith)
      | inr (certified, e) ↦ (ground arith, (certified, e, ground arith))
    ],
    λ (a, (certified, e, short)). ground arith,
  )

  TakesReveal-of_done :
      (s' : State)
      → on_reveal_upload k reveal s ≡ ok (s', done)
      → (certified : Bytes) × TakesReveal certified
  unfolding on_reveal_upload
  TakesReveal-of_done s' h = elim (Option-cases (k.verify reveal.public_key reveal.payload)) [
    | inl e ↦ absurd (ground (arith, same_revealer))
    | inr (certified, e) ↦ (certified, ground (arith, same_revealer))
  ]

  pub TakesReveal-done :
      (certified : Bytes)
      → TakesReveal certified
      → on_reveal_upload k reveal s ≡ ok (with_reveal, done)
  unfolding on_reveal_upload
  TakesReveal-done certified t =
      ground (arith, same_revealer, lookup_at-outer s.voting_epoch revealer s.commits)

  refused_reveal :
      (s' : State) (st : Status)
      → on_reveal_upload k reveal s ≡ ok (s', st)
      → st ≢ done
      → SameReveals s'
  unfolding on_reveal_upload
  refused_reveal s' st e h = record {
    reveals_kept = λ j q. ground (arith, lookup_at-ensure s.voting_epoch j q s.reveals);
    rest_kept = ground arith;
  }

  -- A reveal that does not panic either has all that it needs, and then the status is RevealOk and
  -- exactly its payload is stored; or it lacks something, and then another status is answered and
  -- every stored reveal, and all else, stays.
  pub on_reveal_upload_exact :
      (s' : State) (st : Status)
      → on_reveal_upload k reveal s ≡ ok (s', st)
      → ((certified : Bytes) × TakesReveal certified × (s' ≡ with_reveal) × (st ≡ done))
        ⊎ ((st ≢ done) × ((certified : Bytes) → ¬ TakesReveal certified) × SameReveals s')
  on_reveal_upload_exact s' st h = elim (done_cases st) [
    | inl e ↦
        let (certified, t) = TakesReveal-of_done s' (rw e at h) in
        inl (certified, t, cc (h, TakesReveal-done certified t), e)
    | inr e ↦
        inr (e, (λ certified t. e (cc (h, TakesReveal-done certified t))), refused_reveal s' st h e)
  ]
