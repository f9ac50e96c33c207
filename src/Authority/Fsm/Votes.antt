-- ===== src/Authority/Fsm/Votes.antt =====
-- getVote and the rounds without a panic: what is voted for, and that the worker goes on.
use opt.Base.{ℕ, ◌≡◌, ◌≢◌, refl, arith, List, [], if◌then◌else◌, inl, inr, ap}
use opt.Base.Outcome.{Outcome, ok, err, panics, Outcome-cases, >>=-ok}
use opt.Authority.Types.{Katzenpost, MixDescriptor, Document}
use opt.Authority.State.{
  State, Phase, bootstrap, descriptor_send, accept_desc, accept_vote, confirm_consensus,
}
use opt.Authority.Document.Contents.{Placeable, Contains, get_document-Contains}
use opt.Authority.Chain.{ChainBridge, ch_pki_get_mix_descriptors, ch_pki_get_mix_descriptor_counter}
use opt.Authority.Fsm.{
  Clock, Tick, zeros, restore_genesis, get_vote, on_accept_descriptor, round_of, fsm,
}

module _ {W : Type 0} {R : Type 0} (k : Katzenpost) (b : ChainBridge W R) (period : ℕ) where
  -- The descriptors of the chain, and the state that getVote works in.
  abbrev pub restored : State → State
  restored s = restore_genesis k b period s

  -- Where the appchain answers with descriptors that can be placed (no topology is configured, their
  -- keys are different, there is a layer, the previous document has no more layers than configured,
  -- and the seed and the shuffles of the random reader are good), getVote makes a document that holds
  -- each of them exactly once, and returns it, with its version set, if it is well formed.
  pub get_vote-Contains :
      (s : State) (w w' : W) (ds : List MixDescriptor)
      → ch_pki_get_mix_descriptors k b s.voting_epoch w ≡ (w', ok ds)
      → Placeable k (restored s) ds (zeros k b period)
      → (doc : Document) × Contains k (restored s) ds (zeros k b period) doc
        × (doc.version ≡ k.document_version)
        × (get_vote k b period s.voting_epoch s w
            ≡ (restored s, (w', if k.is_well_formed doc then ok doc else err "not well-formed")))
  unfolding get_vote
  get_vote-Contains s w w' ds q p =
      let (doc, e, c) =
        get_document-Contains k (restored s) ds (zeros k b period) [] s.cfg.parameters p in
      (
        record doc { version = k.document_version },
        record {
          for_epoch = c.for_epoch;
          layer_count = c.layer_count;
          each_once = c.each_once;
          gateways = c.gateways;
          services = c.services;
          mixes = c.mixes;
        },
        refl,
        ground (arith, q, e),
      )

  chain_never_panics : (epoch : ℕ) (w : W) → (ch_pki_get_mix_descriptors k b epoch w).1 ≢ panics
  unfolding ch_pki_get_mix_descriptors ch_pki_get_mix_descriptor_counter
  chain_never_panics epoch w h = ground arith

  -- Whatever descriptors the appchain answers with can be placed.
  abbrev pub ChainPlaceable : State → W → Type 0
  ChainPlaceable s w =
      (ds : List MixDescriptor)
      → (ch_pki_get_mix_descriptors k b s.voting_epoch w).1 ≡ ok ds
      → Placeable k (restored s) ds (zeros k b period)

  get_vote_returns :
      (s : State) (w : W)
      → ChainPlaceable s w
      → (get_vote k b period s.voting_epoch s w).1.1 ≢ panics
  unfolding get_vote
  get_vote_returns s w p h =
      elim (Outcome-cases (ch_pki_get_mix_descriptors k b s.voting_epoch w).1) [
        | inl (ds, e) ↦
            let (doc, _, _, q) =
              get_vote-Contains s w (ch_pki_get_mix_descriptors k b s.voting_epoch w).0 ds
                (ap
                  (λ (r : Outcome (List MixDescriptor)).
                    ((ch_pki_get_mix_descriptors k b s.voting_epoch w).0, r))
                  e)
                (p ds e) in
            ground (arith, q)
        | inr (inl (m, e)) ↦ ground arith
        | inr (inr e) ↦ chain_never_panics s.voting_epoch w e
      ]

  accept_returns :
      (c : Clock) (s : State) (w : W)
      → ChainPlaceable s w
      → (tick : Tick W) × (on_accept_descriptor k b period c s w ≡ ok tick)
  unfolding on_accept_descriptor
  accept_returns c s w p = elim (Outcome-cases (on_accept_descriptor k b period c s w)) [
    | inl r ↦ r
    | inr (inl (m, e)) ↦ absurd (ground arith)
    | inr (inr e) ↦ absurd (ground (arith, get_vote_returns s w p))
  ]

  round_returns :
      (ph : Phase) (c : Clock) (s : State) (w : W)
      → ChainPlaceable s w
      → (tick : Tick W) × (round_of k b period ph c s w ≡ ok tick)
  unfolding round_of
  round_returns bootstrap c s w p = (_, refl)
  round_returns descriptor_send c s w p = (_, refl)
  round_returns accept_desc c s w p = accept_returns c s w p
  round_returns accept_vote c s w p = (_, refl)
  round_returns confirm_consensus c s w p = (_, refl)
  round_returns _ c s w p = (_, refl)

  -- A round does not panic where the descriptors that the appchain answers with can be placed: in
  -- whatever phase, and whether or not the bridge fails.
  pub fsm_total :
      (c : Clock) (s : State) (w : W)
      → ChainPlaceable s w
      → (tick : Tick W) × (fsm k b period c s w ≡ ok tick)
  unfolding fsm
  fsm_total c s w p = let (tick, e) = round_returns s.phase c s w p in (_, >>=-ok _ e)
