-- ===== src/Tests/Progress.antt =====
-- From the end of the votes of epoch 5 to the votes of epoch 6.
use opt.Base.{ℕ, ◌≡◌, refl, [], ◌∷◌, true, lookup, is_some, insert, delete_below, if◌then◌else◌}
use opt.Base.Int.{pos}
use opt.Base.Outcome.{ok}
use opt.Authority.State.{State, accept_vote, confirm_consensus, descriptor_send, bootstrap, add64}
use opt.Authority.Consensus.{prune_documents, set_local_document}
use opt.Authority.Chain.{ch_pki_get_document}
use opt.Authority.Fsm.{Clock, Tick, fsm, finish_fetch}
use opt.Authority.Fsm.Rounds.{clock_at}
use opt.Authority.Run.Progress.{fetched_document-confirms}
use opt.Tests.World.{packages, appchain, voting_state, doc_4, doc_5}

abbrev waiting : State
waiting = record voting_state { phase = accept_vote }

abbrev vote_clock : Clock
vote_clock = clock_at 64 (record { epoch = 4; elapsed = 20 }) 1 0 4

abbrev vote_tick : Tick ℕ
vote_tick = record {
  state = record waiting { phase = confirm_consensus };
  world = 0;
  fetches = 5 ∷ [];
  sleep = pos 19;
}

vote_round : fsm packages appchain 64 vote_clock waiting 0 ≡ ok vote_tick
unfolding fsm prune_documents lookup delete_below
vote_round = refl

abbrev confirm_clock : Clock
confirm_clock = clock_at 64 (record { epoch = 4; elapsed = 40 }) 1 2 4

abbrev confirmed : Tick ℕ
confirmed = record {
  state = record waiting {
    phase = descriptor_send;
    voting_epoch = 6;
    documents = (4, doc_4) ∷ (5, doc_5) ∷ [];
  };
  world = 0;
  fetches = [];
  sleep = pos 34;
}

abbrev fetched_state : State
fetched_state = (finish_fetch packages appchain 64 5 vote_tick.state 0).0

chain_document : (ch_pki_get_document packages appchain 5 0).1 ≡ ok doc_5
unfolding ch_pki_get_document
chain_document = refl

confirm_round :
    fsm packages appchain 64 confirm_clock
      (finish_fetch packages appchain 64 5 vote_tick.state 0).0
      (finish_fetch packages appchain 64 5 vote_tick.state 0).1
    ≡ ok confirmed
unfolding fsm prune_documents finish_fetch lookup delete_below insert ch_pki_get_document
    set_local_document
confirm_round = refl

fetched_document-confirms_example :
    (vote_tick.fetches ≡ (if is_some (lookup 5 waiting.documents) then [] else 5 ∷ []))
    × (is_some (lookup 5 fetched_state.documents) ≡ true)
    × (confirmed.state.phase ≡ descriptor_send)
    × (confirmed.state.voting_epoch ≡ add64 5 1)
fetched_document-confirms_example =
    fetched_document-confirms packages appchain 64 vote_clock confirm_clock waiting 0 vote_tick
      confirmed doc_5 doc_5 refl refl vote_round chain_document refl confirm_round

abbrev confirming : State
confirming = record voting_state { phase = confirm_consensus }

abbrev restarted : Tick ℕ
restarted = record {
  state = record confirming { phase = bootstrap; voting_epoch = 6 };
  world = 0;
  fetches = [];
  sleep = pos 24;
}

restart_round : fsm packages appchain 64 confirm_clock confirming 0 ≡ ok restarted
unfolding fsm prune_documents lookup delete_below
restart_round = refl
