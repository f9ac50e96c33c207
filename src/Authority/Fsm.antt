-- ===== src/Authority/Fsm.antt =====
-- pki/server/aux.go: `fsm`, one round of the authority's worker, and getVote of state.go.
-- The round of state.go is commented out there. Sleeps are nanoseconds; a negative one ends at once.
pub mod Rounds
pub mod Votes
use opt.Base.{
  ℕ, ◌+◌, List, [], ◌∷◌, ◌++◌, Option, none, some, Bool, true, false, Bytes, Map, lookup, lookup_at,
  insert, is_some, replicate, ltb, if◌then◌else◌,
}
use opt.Base.Int.{ℤ, pos, sub_ℕ, at_least_zero}
use opt.Base.Outcome.{Outcome, ok, err, panics, ◌>>=◌}
use opt.Authority.Types.{Katzenpost, MixDescriptor, Document}
use opt.Authority.State.{
  State, Phase, bootstrap, descriptor_send, accept_desc, accept_vote, confirm_consensus, add64,
  sub64,
}
use opt.Authority.Schedule.{
  mix_publish_deadline, authority_vote_deadline, publish_consensus_deadline,
  descriptor_block_deadline,
}
use opt.Authority.Consensus.{Now, prune_documents, set_local_document}
use opt.Authority.Document.{get_document}
use opt.Authority.Chain.{
  ChainBridge, ch_pki_get_document, ch_pki_set_document, ch_pki_get_mix_descriptors,
  ch_pki_set_mix_descriptor,
}

-- What a round reads of the clocks and of the random numbers.
pub record Clock : Type 0 where
  pub now : Now  -- at the start
  pub later : ℕ  -- `nowelapsed`, read after the work
  pub jitter : ℕ
  pub prune_epoch : ℕ  -- the epoch when pruneDocuments asks

-- The sum of a duration and a natural number.
abbrev pub add_ℕ : ℤ → ℕ → ℤ
add_ℕ (ℤ.pos n) j = pos (n + j)
add_ℕ (ℤ.negsuc n) j = sub_ℕ j (n + 1)

-- After a round: the state, the appchain, the documents being fetched and the sleep.
pub record Tick (W : Type 0) : Type 0 where
  pub state : State
  pub world : W
  pub fetches : List ℕ
  pub sleep : ℤ

module _ {W : Type 0} {R : Type 0} (k : Katzenpost) (b : ChainBridge W R) (period : ℕ) where
  abbrev pub zeros : Bytes
  zeros = replicate 32 0

  -- The first part of getVote. The previous document is changed where it is stored.
  unfoldable pub restore_genesis : State → State
  restore_genesis s = elim (lookup (sub64 s.voting_epoch 1) s.documents) [
    | none ↦ record s { genesis_epoch = s.voting_epoch }
    | some d ↦ record s {
      genesis_epoch = d.genesis_epoch;
      prior_srv = d.prior_shared_random;
      documents =
          insert (sub64 s.voting_epoch 1)
            (record d { pki_signature_scheme = s.cfg.pki_signature_scheme }) s.documents;
    }
  ]

  -- zkpki_getVote: no replica is on the appchain yet, and the version is set as signing would.
  unfoldable pub zkpki_get_vote : ℕ → State → W → W × Outcome Document
  zkpki_get_vote epoch s w =
      let (w', r) = ch_pki_get_mix_descriptors k b epoch w in
      (
        w',
        (do
          descriptors ← r
          doc ← get_document k s descriptors [] s.cfg.parameters zeros
          let doc' = record doc { version = k.document_version }
          if k.is_well_formed doc' then ok doc' else err "not well-formed"),
      )

  unfoldable pub get_vote : ℕ → State → W → State × (W × Outcome Document)
  unfolding restore_genesis zkpki_get_vote
  get_vote epoch s w = let s' = restore_genesis s in (s', zkpki_get_vote epoch s' w)

  -- A failure is logged, and so is success after it.
  unfoldable pub submit_descriptor : MixDescriptor → ℕ → W → W
  submit_descriptor desc epoch w = (ch_pki_set_mix_descriptor k b desc epoch w).0

  unfoldable pub send_vote : Document → W → W
  send_vote doc w = (ch_pki_set_document k b doc w).0

  -- The start of the fetch; what it does later is `finish_fetch`.
  unfoldable pub background_fetch_consensus : ℕ → State → List ℕ
  background_fetch_consensus epoch s = if is_some (lookup epoch s.documents) then [] else epoch ∷ []

  abbrev pub fetched_into : ℕ → State → Outcome Document → State
  fetched_into epoch s (ok doc) = set_local_document k epoch doc s
  fetched_into epoch s _ = s

  unfoldable pub finish_fetch : ℕ → State → W → State × W
  finish_fetch epoch s w =
      let (w', r) = ch_pki_get_document k b epoch w in (fetched_into epoch s r, w')

  unfoldable pub on_bootstrap : Clock → State → W → Tick W
  unfolding background_fetch_consensus mix_publish_deadline
  on_bootstrap c s w =
      let epoch = c.now.epoch in
      let s' = record s { genesis_epoch = 0 } in
      let fetches =
        background_fetch_consensus (sub64 epoch 1) s' ++ background_fetch_consensus epoch s' in
      if ltb (mix_publish_deadline period) c.now.elapsed
      then record {
        state = record s' { voting_epoch = add64 epoch 2; phase = bootstrap };
        world = w;
        fetches = fetches;
        sleep = pos c.now.till;
      }
      else record {
        state = record s' { voting_epoch = add64 epoch 1; phase = descriptor_send };
        world = w;
        fetches = fetches;
        sleep = at_least_zero (add_ℕ (sub_ℕ (mix_publish_deadline period) c.now.elapsed) c.jitter);
      }

  unfoldable pub on_descriptor_send : Clock → State → W → Tick W
  unfolding submit_descriptor descriptor_block_deadline
  on_descriptor_send c s w = record {
    state = record s { phase = accept_desc };
    world = elim (lookup_at s.voting_epoch (k.sum256 s.authorized_key) s.descriptors) [
      | none ↦ w
      | some desc ↦ submit_descriptor desc s.voting_epoch w
    ];
    fetches = [];
    sleep = add_ℕ (sub_ℕ (descriptor_block_deadline period) c.now.elapsed) c.jitter;
  }

  -- A panic of getVote ends the process.
  unfoldable pub on_accept_descriptor : Clock → State → W → Outcome (Tick W)
  unfolding get_vote send_vote authority_vote_deadline
  on_accept_descriptor c s w =
      let (s', (w', r)) = get_vote s.voting_epoch s w in
      let tick : W → Tick W = λ w''. record {
        state = record s' { phase = accept_vote };
        world = w'';
        fetches = [];
        sleep = sub_ℕ (authority_vote_deadline period) c.later;
      } in
      elim r [
        | ok doc ↦ ok (tick (send_vote doc w'))
        | Outcome.err e ↦ ok (tick w')
        | Outcome.panics ↦ panics
      ]

  unfoldable pub on_accept_vote : Clock → State → W → Tick W
  unfolding background_fetch_consensus publish_consensus_deadline
  on_accept_vote c s w = record {
    state = record s { phase = confirm_consensus };
    world = w;
    fetches = background_fetch_consensus s.voting_epoch s;
    sleep = sub_ℕ (publish_consensus_deadline period) c.later;
  }

  unfoldable pub on_confirm_consensus : Clock → State → W → Tick W
  unfolding mix_publish_deadline
  on_confirm_consensus c s w =
      let epoch = c.now.epoch in
      if is_some (lookup (add64 epoch 1) s.documents)
      then record {
        state = record s { voting_epoch = add64 s.voting_epoch 1; phase = descriptor_send };
        world = w;
        fetches = [];
        sleep = pos (mix_publish_deadline period + c.now.till + c.jitter);
      }
      else record {
        state = record s { voting_epoch = add64 epoch 2; phase = bootstrap };
        world = w;
        fetches = [];
        sleep = pos c.now.till;
      }

  abbrev idle : State → W → Tick W
  idle s w = record { state = s; world = w; fetches = []; sleep = pos 0 }

  unfoldable pub round_of : Phase → Clock → State → W → Outcome (Tick W)
  unfolding on_bootstrap on_descriptor_send on_accept_descriptor on_accept_vote on_confirm_consensus
  round_of bootstrap c s w = ok (on_bootstrap c s w)
  round_of descriptor_send c s w = ok (on_descriptor_send c s w)
  round_of accept_desc c s w = on_accept_descriptor c s w
  round_of accept_vote c s w = ok (on_accept_vote c s w)
  round_of confirm_consensus c s w = ok (on_confirm_consensus c s w)
  round_of _ c s w = ok (idle s w)

  unfoldable pub fsm : Clock → State → W → Outcome (Tick W)
  unfolding round_of
  fsm c s w = do
    t ← round_of s.phase c s w
    ok (record t { state = prune_documents c.prune_epoch t.state })
