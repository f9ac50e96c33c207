-- ===== src/Authority/Run/Progress.antt =====
-- From the fetch of a document to the next epoch: what makes the worker go on with the protocol, and
-- what makes it start again.
use opt.Base.{
  ℕ, ◌≡◌, arith, some, none, true, Option-cases, inl, inr, lookup, is_some, lookup-insert, sym, ap,
  ◌∙◌, ◌⊎◌, [], ◌∷◌, if◌then◌else◌,
}
use opt.Base.Outcome.{ok, >>=-ok, ok-inj}
use opt.Authority.Types.{Katzenpost, Document}
use opt.Authority.State.{State, accept_vote, confirm_consensus, descriptor_send, bootstrap, add64}
use opt.Authority.Consensus.{set_local_document, prune_documents}
use opt.Authority.Chain.{ChainBridge, ch_pki_get_document}
use opt.Authority.Run.Frames.{finish_fetch_frame}
use opt.Authority.Fsm.{
  Clock, Tick, round_of, on_accept_vote, on_confirm_consensus, fsm, finish_fetch,
  background_fetch_consensus,
}

module _ {W : Type 0} {R : Type 0} (k : Katzenpost) (b : ChainBridge W R) (period : ℕ) where
  -- A document that comes from the chain and can be signed is held afterwards, or one was before.
  fetched_held :
      (epoch : ℕ) (s : State) (w : W) (doc signed : Document)
      → (ch_pki_get_document k b epoch w).1 ≡ ok doc
      → k.sign_document doc ≡ some signed
      → is_some (lookup epoch (finish_fetch k b period epoch s w).0.documents) ≡ true
  unfolding finish_fetch set_local_document
  fetched_held epoch s w doc signed e q =
      ground (arith, lookup-insert epoch epoch signed s.documents)

  tick_of :
      (c : Clock) (s : State) (w : W) (t tick : Tick W)
      → round_of k b period s.phase c s w ≡ ok t
      → fsm k b period c s w ≡ ok tick
      → tick ≡ record t { state = prune_documents c.prune_epoch t.state }
  unfolding fsm
  tick_of c s w t tick r q = ok-inj (sym q ∙ >>=-ok _ r)

  confirm_tick :
      (c : Clock) (s : State) (w : W) (tick : Tick W)
      → s.phase ≡ confirm_consensus
      → fsm k b period c s w ≡ ok tick
      → tick ≡ record (on_confirm_consensus k b period c s w) {
        state = prune_documents c.prune_epoch (on_confirm_consensus k b period c s w).state;
      }
  unfolding round_of
  confirm_tick c s w tick p q =
      tick_of c s w (on_confirm_consensus k b period c s w) tick
        (ap (λ ph. round_of k b period ph c s w) p) q

  vote_tick :
      (c : Clock) (s : State) (w : W) (tick : Tick W)
      → s.phase ≡ accept_vote
      → fsm k b period c s w ≡ ok tick
      → tick ≡ record (on_accept_vote k b period c s w) {
        state = prune_documents c.prune_epoch (on_accept_vote k b period c s w).state;
      }
  unfolding round_of
  vote_tick c s w tick p q =
      tick_of c s w (on_accept_vote k b period c s w) tick
        (ap (λ ph. round_of k b period ph c s w) p) q

  -- The round that confirms goes on with the next epoch exactly if the document of the epoch after the
  -- clock's is held; else it starts again, to vote for the epoch after the next.
  pub fsm_confirms :
      (c : Clock) (s : State) (w : W) (tick : Tick W)
      → s.phase ≡ confirm_consensus
      → fsm k b period c s w ≡ ok tick
      → ((is_some (lookup (add64 c.now.epoch 1) s.documents) ≡ true)
          × (tick.state.phase ≡ descriptor_send)
          × (tick.state.voting_epoch ≡ add64 s.voting_epoch 1))
        ⊎ ((lookup (add64 c.now.epoch 1) s.documents ≡ none)
            × (tick.state.phase ≡ bootstrap)
            × (tick.state.voting_epoch ≡ add64 c.now.epoch 2))
  unfolding on_confirm_consensus prune_documents
  fsm_confirms c s w tick p q =
      let e = confirm_tick c s w tick p q in
      elim (Option-cases (lookup (add64 c.now.epoch 1) s.documents)) [
        | inl n ↦ inr (n, ground (arith, e), ground (arith, e))
        | inr (d, h) ↦ inl (ground arith, ground (arith, e), ground (arith, e))
      ]

  vote_round :
      (c : Clock) (s : State) (w : W) (tick : Tick W)
      → s.phase ≡ accept_vote
      → fsm k b period c s w ≡ ok tick
      → (tick.state.phase ≡ confirm_consensus)
        × (tick.state.voting_epoch ≡ s.voting_epoch)
        × (tick.fetches
            ≡ (if is_some (lookup s.voting_epoch s.documents) then [] else s.voting_epoch ∷ []))
  unfolding on_accept_vote background_fetch_consensus prune_documents
  vote_round c s w tick p q =
      let e = vote_tick c s w tick p q in (ground (arith, e), ground (arith, e), ground (arith, e))

  -- A round that waits for the end of the votes starts a fetch of the document of the voting epoch,
  -- and no other, unless one is held; if the appchain then gives a document
  -- of the voting epoch, which the authority can sign, and the worker confirms in the epoch before,
  -- then the authority holds a document for the voting epoch and goes on to vote for the next one.
  pub fetched_document-confirms :
      (c c' : Clock) (s : State) (w : W) (tick tick' : Tick W) (doc signed : Document)
      → s.phase ≡ accept_vote
      → s.voting_epoch ≡ add64 c'.now.epoch 1
      → fsm k b period c s w ≡ ok tick
      → (ch_pki_get_document k b s.voting_epoch tick.world).1 ≡ ok doc
      → k.sign_document doc ≡ some signed
      → let (s', w') = finish_fetch k b period s.voting_epoch tick.state tick.world in
        fsm k b period c' s' w' ≡ ok tick'
        → (tick.fetches
            ≡ (if is_some (lookup s.voting_epoch s.documents) then [] else s.voting_epoch ∷ []))
          × (is_some (
                lookup s.voting_epoch
                  (finish_fetch k b period s.voting_epoch tick.state tick.world).0.documents)
              ≡ true)
          × (tick'.state.phase ≡ descriptor_send)
          × (tick'.state.voting_epoch ≡ add64 s.voting_epoch 1)
  fetched_document-confirms c c' s w tick tick' doc signed p v q got sign q' =
      let (ph, ve, started) = vote_round c s w tick p q in
      let held = fetched_held s.voting_epoch tick.state tick.world doc signed got sign in
      let (_, place) = finish_fetch_frame k b period s.voting_epoch tick.state tick.world in
      let t = finish_fetch k b period s.voting_epoch tick.state tick.world in
      elim (fsm_confirms c' t.0 t.1 tick' (place.same_phase ∙ ph) q') [
        | inl (_, ph', ve') ↦
            (started, held, ph', ve' ∙ ap (λ e. add64 e 1) (place.same_voting_epoch ∙ ve))
        | inr (no_doc, _, _) ↦ absurd (ground (arith, held, v, no_doc))
      ]
