-- ===== src/Tests/Worker.antt =====
-- The first round of an authority, a vote that it receives, and the vote that it sends.
use opt.Base.{
  ℕ, ◌+◌, ◌≡◌, refl, arith, List, [], ◌∷◌, lookup, delete_below, if◌then◌else◌, ensure, insert,
  lookup_at, subst, sym, ap, ◌∙◌, length, ◌≤◌, some-inj, bytes_eq,
}
use opt.Base.Int.{pos, pos_part}
use opt.Base.Outcome.{Outcome, ok, err, ok-inj}
use mathlib.Core.List.Permᴰ
use opt.Authority.Types.{MixDescriptor, Document}
use opt.Authority.State.{State, descriptor_send}
use opt.Authority.Document.Contents.{Placeable, Contains}
use opt.Authority.Chain.{ch_pki_get_mix_descriptors}
use opt.Authority.Chain.Reads.{ch_pki_get_mix_descriptors_lem}
use opt.Authority.Consensus.{prune_documents}
use opt.Authority.Fsm.{Clock, Tick, zeros, get_vote, fsm, restore_genesis}
use opt.Authority.Fsm.Rounds.{Time, after, clock_at, Timely, OnSchedule}
use opt.Authority.Fsm.Votes.{restored, ChainPlaceable, get_vote-Contains, fsm_total}
use opt.Authority.Schedule.{jitter_max}
use opt.Authority.Run.{Fresh, Reached, started, round, served}
use opt.Authority.Upload.{done, on_vote_upload}
use opt.Authority.Upload.Vote.{with_vote}
use opt.Authority.Wire.{vote, upload_status, on_conn}
use opt.Authority.Run.Invariants.{Reached-OnSchedule, Reached-Ballots}
use opt.Authority.Upload.Ballots.{Ballots}
use opt.Tests.World.{
  packages, appchain, started_state, voting_state, mix_11, doc_5, upload_1, authority_peer, now_4,
}

abbrev start : Time
start = record { epoch = 4; elapsed = 3 }

abbrev first_clock : Clock
first_clock = clock_at 64 start 1 2 4

abbrev first_tick : Tick ℕ
first_tick = record {
  state = record started_state { voting_epoch = 5; phase = descriptor_send };
  world = 0;
  fetches = 3 ∷ 4 ∷ [];
  sleep = pos 7;
}

first_round : fsm packages appchain 64 first_clock started_state 0 ≡ ok first_tick
unfolding fsm prune_documents lookup delete_below
first_round = refl

first_Timely : Timely packages appchain 64 start 1 2
unfolding jitter_max
first_Timely = record {
  short_work = omega arith;
  jitter_bound = omega arith;
  fits = omega arith;
  long_period = omega arith;
}

start_Fresh : Fresh started_state
start_Fresh = record {
  first_phase = refl;
  no_votes = refl;
  no_commits = refl;
  no_reveals = refl;
  no_certificates = refl;
}

start-OnSchedule : OnSchedule 64 start started_state
start-OnSchedule = record { in_window = omega arith; votes_next = tt }

abbrev first_wake : Time
first_wake = after 64 start (1 + pos_part first_tick.sleep)

first_Reached : Reached packages appchain 64 first_wake first_tick.state first_tick.world
first_Reached =
    round start 1 2 4 started_state 0 first_tick
      (started start started_state 0 start_Fresh (omega arith)) first_Timely first_round

Reached-OnSchedule_example : OnSchedule 64 first_wake first_tick.state
Reached-OnSchedule_example =
    Reached-OnSchedule packages appchain 64 first_wake first_tick.state first_tick.world
      first_Reached

-- The authority 1 votes before the second round.
abbrev with_first_vote : State
with_first_vote = with_vote packages upload_1 first_tick.state doc_5 (77 ∷ [])

first_vote_run :
    on_conn packages 64 now_4 authority_peer (vote upload_1) first_tick.state
    ≡ ok (with_first_vote, upload_status done)
unfolding on_conn on_vote_upload lookup lookup_at ensure insert bytes_eq
first_vote_run = refl

Reached-Ballots_example : Ballots with_first_vote
Reached-Ballots_example =
    Reached-Ballots packages appchain 64 first_wake with_first_vote first_tick.world (
      served first_wake first_tick.state with_first_vote first_tick.world now_4 authority_peer
        (vote upload_1) (upload_status done) first_Reached first_vote_run)

abbrev chain_nodes : List MixDescriptor
chain_nodes = mix_11 ∷ []

chain_run : ch_pki_get_mix_descriptors packages appchain 5 0 ≡ (0, ok chain_nodes)
chain_run =
    ch_pki_get_mix_descriptors_lem packages appchain 5 1 0 (11 ∷ []) (λ p w. refl) (λ j p w. refl)
      refl refl (omega arith)

chain_Placeable :
    Placeable packages
      (restored packages appchain 64 voting_state)
      chain_nodes
      (zeros packages appchain 64)
unfolding restore_genesis lookup insert
chain_Placeable = record {
  dynamic = refl;
  some_layer = omega arith;
  shuffles = λ srv sizes n. Permᴰ.refl _;
  seed = refl;
  prior_layers = λ d e. subst (λ (x : Document). length x.topology ≤ 2) (some-inj e) (omega arith);
  distinct_keys = (tt, tt);
}

get_vote_example :
    (doc : Document) × Contains packages
      (restored packages appchain 64 voting_state)
      chain_nodes
      (zeros packages appchain 64)
      doc
    × (doc.version ≡ "v0")
    × (get_vote packages appchain 64 5 voting_state 0 ≡ (
      restored packages appchain 64 voting_state,
      (0, if packages.is_well_formed doc then ok doc else err "not well-formed"),
    ))
get_vote_example =
    get_vote-Contains packages appchain 64 voting_state 0 0 chain_nodes chain_run chain_Placeable

chain_ChainPlaceable : ChainPlaceable packages appchain 64 voting_state 0
chain_ChainPlaceable ds e =
    subst
      (λ l.
        Placeable packages (restored packages appchain 64 voting_state) l
          (zeros packages appchain 64))
      (ok-inj (sym (ap (λ (r : ℕ × Outcome (List MixDescriptor)). r.1) chain_run) ∙ e))
      chain_Placeable

fsm_total_example :
    (tick : Tick ℕ) × (fsm packages appchain 64 first_clock voting_state 0 ≡ ok tick)
fsm_total_example = fsm_total packages appchain 64 first_clock voting_state 0 chain_ChainPlaceable
