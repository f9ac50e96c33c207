-- ===== src/Authority/Run/Frames.antt =====
-- What the rounds, the fetches and the connections leave alone.
use opt.Base.{ℕ, ◌≡◌, arith, Option-cases, subst, inl, inr, lookup}
use opt.Base.Outcome.{Outcome, ok, err, panics, >>=-eq-ok, ok-inj}
use opt.Authority.Types.{Katzenpost, Document}
use opt.Authority.State.{
  State, sub64, Phase, bootstrap, descriptor_send, accept_desc, accept_vote, confirm_consensus,
}
use opt.Authority.Consensus.{set_local_document}
use opt.Authority.Chain.{ChainBridge, ch_pki_get_document}
use opt.Authority.Upload.Ballots.{Ballots, SameBallots-Ballots, prune_documents-Ballots}
use opt.Authority.Fsm.{
  Clock, Tick, restore_genesis, get_vote, on_bootstrap, on_descriptor_send, on_accept_descriptor,
  on_accept_vote, on_confirm_consensus, round_of, fsm, fetched_into, finish_fetch,
}

-- The maps of the uploads and the list of the authorities.
pub record SameStores (s t : State) : Type 0 where
  pub same_votes : t.votes ≡ s.votes
  pub same_commits : t.commits ≡ s.commits
  pub same_reveals : t.reveals ≡ s.reveals
  pub same_certificates : t.certificates ≡ s.certificates
  pub same_authorities : t.authorized_authorities ≡ s.authorized_authorities

pub record SamePlace (s t : State) : Type 0 where
  pub same_phase : t.phase ≡ s.phase
  pub same_voting_epoch : t.voting_epoch ≡ s.voting_epoch

pub SameStores-Ballots : (s t : State) → SameStores s t → Ballots s → Ballots t
SameStores-Ballots s t h b =
    SameBallots-Ballots s t
      (record {
        votes_same = λ e q. cc (h.same_votes);
        commits_same = λ e q. cc (h.same_commits);
        reveals_same = λ e q. cc (h.same_reveals);
        certificates_same = λ e q. cc (h.same_certificates);
        authorities_same = h.same_authorities;
      })
      b

module _ {W : Type 0} {R : Type 0} (k : Katzenpost) (b : ChainBridge W R) (period : ℕ) where
  restored : (s : State) → SameStores s (restore_genesis k b period s)
  unfolding restore_genesis
  restored s = elim (Option-cases (lookup (sub64 s.voting_epoch 1) s.documents)) [
    | inl e ↦ ground arith
    | inr (d, e) ↦ ground arith
  ]

  accept_frame :
      (c : Clock) (s : State) (w : W) (tick : Tick W)
      → on_accept_descriptor k b period c s w ≡ ok tick
      → SameStores s tick.state
  unfolding on_accept_descriptor get_vote
  accept_frame c s w tick q = ground (arith, restored s)

  round_frame :
      (ph : Phase) (c : Clock) (s : State) (w : W) (tick : Tick W)
      → round_of k b period ph c s w ≡ ok tick
      → SameStores s tick.state
  unfolding round_of on_bootstrap on_descriptor_send on_accept_vote on_confirm_consensus
  round_frame bootstrap c s w tick q = ground arith
  round_frame descriptor_send c s w tick q = ground arith
  round_frame accept_desc c s w tick q = accept_frame c s w tick q
  round_frame accept_vote c s w tick q = ground arith
  round_frame confirm_consensus c s w tick q = ground arith
  round_frame _ c s w tick q = ground arith

  pub fsm-Ballots :
      (c : Clock) (s : State) (w : W) (tick : Tick W)
      → fsm k b period c s w ≡ ok tick
      → Ballots s
      → Ballots tick.state
  unfolding fsm
  fsm-Ballots c s w tick q h =
      let (tick', r, e) = >>=-eq-ok (round_of k b period s.phase c s w) _ q in
      subst (λ (x : Tick W). Ballots x.state) (ok-inj e)
        (prune_documents-Ballots c.prune_epoch tick'.state
          (SameStores-Ballots s tick'.state (round_frame s.phase c s w tick' r) h))

  local_frame :
      (epoch : ℕ) (doc : Document) (s : State)
      → SameStores s (set_local_document k epoch doc s)
        × SamePlace s (set_local_document k epoch doc s)
  unfolding set_local_document
  local_frame epoch doc s = ground arith

  fetched_frame :
      (epoch : ℕ) (s : State) (r : Outcome Document)
      → SameStores s (fetched_into k b period epoch s r)
        × SamePlace s (fetched_into k b period epoch s r)
  fetched_frame epoch s (ok doc) = local_frame epoch doc s
  fetched_frame epoch s (err e) = ground arith
  fetched_frame epoch s panics = ground arith

  pub finish_fetch_frame :
      (epoch : ℕ) (s : State) (w : W)
      → SameStores s (finish_fetch k b period epoch s w).0
        × SamePlace s (finish_fetch k b period epoch s w).0
  unfolding finish_fetch
  finish_fetch_frame epoch s w = fetched_frame epoch s (ch_pki_get_document k b epoch w).1
