-- ===== src/Authority/Fsm/Rounds.antt =====
-- The rounds of the worker in time: each phase has its window in the epoch, and the epoch that is
-- voted on is the next one.
use opt.Base.{subst, ℕ, ◌+◌, ◌-◌, ◌*◌, ◌/◌, ◌^◌, ◌≤◌, ◌<◌, ◌≡◌, arith, ltb, if◌then◌else◌}
use opt.Base.Int.{pos_part}
use opt.Base.Outcome.{ok, >>=-eq-ok, ok-inj}
use opt.Authority.Types.{Katzenpost}
use opt.Authority.State.{
  State, Phase, bootstrap, descriptor_send, accept_desc, accept_vote, accept_reveal, accept_cert,
  accept_signature, confirm_consensus,
}
use opt.Authority.Schedule.{
  mix_publish_deadline, authority_vote_deadline, authority_reveal_deadline, authority_cert_deadline,
  publish_consensus_deadline, descriptor_block_deadline, jitter_max,
}
use opt.Authority.Consensus.{prune_documents}
use opt.Authority.Chain.{ChainBridge}
use opt.Authority.Fsm.{
  Clock, Tick, restore_genesis, get_vote, on_bootstrap, on_descriptor_send, on_accept_descriptor,
  on_accept_vote, on_confirm_consensus, round_of, fsm,
}

-- Where the clock stands in an epoch.
pub record Time : Type 0 where
  pub epoch : ℕ
  pub elapsed : ℕ

-- The time after a duration that ends in this epoch or the next one.
abbrev pub after : ℕ → Time → ℕ → Time
after period t d =
    if ltb (t.elapsed + d) period
    then record { epoch = t.epoch; elapsed = t.elapsed + d }
    else record { epoch = t.epoch + 1; elapsed = t.elapsed + d - period }

-- The clocks of a round that starts at `t` and works for `d`.
abbrev pub clock_at : ℕ → Time → ℕ → ℕ → ℕ → Clock
clock_at period t d jitter prune = record {
  now = record { epoch = t.epoch; elapsed = t.elapsed; till = period - t.elapsed };
  later = t.elapsed + d;
  jitter = jitter;
  prune_epoch = prune;
}

-- When the round of a phase may begin, and the epoch that it votes on: the bootstrap at any time;
-- the others for the next epoch, to send the descriptor in the first 2/8 of the epoch, to vote
-- between 2/8 and 3/8, to fetch the document between 2/8 and 7/16, and to look for it at 5/8. The
-- phases that only the older protocol had do not occur.
abbrev pub Window : ℕ → Phase → ℕ → Type 0
Window period bootstrap e = e < period
Window period descriptor_send e = 8 * e ≤ 2 * period
Window period accept_desc e = (descriptor_block_deadline period ≤ e) × (8 * e ≤ 3 * period)
Window period accept_vote e = (descriptor_block_deadline period ≤ e) × (16 * e ≤ 7 * period)
Window period confirm_consensus e = e ≡ publish_consensus_deadline period
Window period _ e = ⊥

abbrev pub VotesNext : Phase → ℕ → ℕ → Type 0
VotesNext bootstrap epoch voting = Unit
VotesNext _ epoch voting = voting ≡ epoch + 1

pub record OnSchedule (period : ℕ) (t : Time) (s : State) : Type 0 where
  pub in_window : Window period s.phase t.elapsed
  pub votes_next : VotesNext s.phase t.epoch s.voting_epoch

module _ {W : Type 0} {R : Type 0} (k : Katzenpost) (b : ChainBridge W R) (period : ℕ) where
  -- A round is timely: its work and its jitter take a sixteenth of the period each, at most.
  pub record Timely (t : Time) (d jitter : ℕ) : Type 0 where
    pub short_work : d ≤ period / 16
    pub jitter_bound : jitter ≤ jitter_max period
    pub fits : t.epoch + 2 < 2 ^ 64
    pub long_period : 64 ≤ period

  abbrev Next : Time → ℕ → Tick W → Type 0
  Next t d tick = OnSchedule period (after period t (d + pos_part tick.sleep)) tick.state

  bootstrap-Next :
      (t : Time) (d j p : ℕ) (s : State) (w : W)
      → Timely t d j
      → t.elapsed < period
      → Next t d (on_bootstrap k b period (clock_at period t d j p) s w)
  unfolding on_bootstrap jitter_max mix_publish_deadline
  bootstrap-Next t d j p s w h e = record { in_window = ground arith; votes_next = ground arith }

  send-Next :
      (t : Time) (d j p : ℕ) (s : State) (w : W)
      → Timely t d j
      → Window period descriptor_send t.elapsed
      → s.voting_epoch ≡ t.epoch + 1
      → Next t d (on_descriptor_send k b period (clock_at period t d j p) s w)
  unfolding on_descriptor_send descriptor_block_deadline jitter_max
  send-Next t d j p s w h e v = record { in_window = ground arith; votes_next = ground arith }

  restore_genesis_keeps :
      (s : State)
      → ((restore_genesis k b period s).voting_epoch ≡ s.voting_epoch)
        × ((restore_genesis k b period s).phase ≡ s.phase)
  unfolding restore_genesis
  restore_genesis_keeps s = ground arith

  accept-Next :
      (t : Time) (d j p : ℕ) (s : State) (w : W) (tick : Tick W)
      → Timely t d j
      → Window period accept_desc t.elapsed
      → s.voting_epoch ≡ t.epoch + 1
      → on_accept_descriptor k b period (clock_at period t d j p) s w ≡ ok tick
      → Next t d tick
  unfolding on_accept_descriptor get_vote descriptor_block_deadline authority_vote_deadline
      mix_publish_deadline
  accept-Next t d j p s w tick h e v q = record {
    in_window = ground arith;
    votes_next = ground (arith, restore_genesis_keeps s);
  }

  vote-Next :
      (t : Time) (d j p : ℕ) (s : State) (w : W)
      → Timely t d j
      → Window period accept_vote t.elapsed
      → s.voting_epoch ≡ t.epoch + 1
      → Next t d (on_accept_vote k b period (clock_at period t d j p) s w)
  unfolding on_accept_vote descriptor_block_deadline publish_consensus_deadline
      authority_cert_deadline authority_reveal_deadline authority_vote_deadline mix_publish_deadline
  vote-Next t d j p s w h e v = record { in_window = ground arith; votes_next = ground arith }

  confirm-Next :
      (t : Time) (d j p : ℕ) (s : State) (w : W)
      → Timely t d j
      → Window period confirm_consensus t.elapsed
      → s.voting_epoch ≡ t.epoch + 1
      → Next t d (on_confirm_consensus k b period (clock_at period t d j p) s w)
  unfolding on_confirm_consensus jitter_max publish_consensus_deadline authority_cert_deadline
      authority_reveal_deadline authority_vote_deadline mix_publish_deadline
  confirm-Next t d j p s w h e v = record { in_window = ground arith; votes_next = ground arith }

  round-Next :
      (ph : Phase) (t : Time) (d j p : ℕ) (s : State) (w : W) (tick : Tick W)
      → Timely t d j
      → Window period ph t.elapsed
      → VotesNext ph t.epoch s.voting_epoch
      → round_of k b period ph (clock_at period t d j p) s w ≡ ok tick
      → Next t d tick
  unfolding round_of
  round-Next bootstrap t d j p s w tick h e v q =
      subst (Next t d) (ok-inj q) (bootstrap-Next t d j p s w h e)
  round-Next descriptor_send t d j p s w tick h e v q =
      subst (Next t d) (ok-inj q) (send-Next t d j p s w h e v)
  round-Next accept_desc t d j p s w tick h e v q = accept-Next t d j p s w tick h e v q
  round-Next accept_vote t d j p s w tick h e v q =
      subst (Next t d) (ok-inj q) (vote-Next t d j p s w h e v)
  round-Next confirm_consensus t d j p s w tick h e v q =
      subst (Next t d) (ok-inj q) (confirm-Next t d j p s w h e v)
  round-Next accept_reveal t d j p s w tick h e v q = absurd e
  round-Next accept_cert t d j p s w tick h e v q = absurd e
  round-Next accept_signature t d j p s w tick h e v q = absurd e

  pruned_OnSchedule :
      (t : Time) (p : ℕ) (s : State)
      → OnSchedule period t s
      → OnSchedule period t (prune_documents p s)
  unfolding prune_documents
  pruned_OnSchedule t p s h = record { in_window = h.in_window; votes_next = h.votes_next }

  -- A timely round that begins on schedule, and does not panic, sleeps so that the next round begins
  -- on schedule too: in the window of its phase, with the next epoch as the one that is voted on,
  -- whether or not the appchain answers, and whether or not the epoch got its document.
  pub fsm-OnSchedule :
      (t : Time) (d j p : ℕ) (s : State) (w : W) (tick : Tick W)
      → Timely t d j
      → OnSchedule period t s
      → fsm k b period (clock_at period t d j p) s w ≡ ok tick
      → OnSchedule period (after period t (d + pos_part tick.sleep)) tick.state
  unfolding fsm
  fsm-OnSchedule t d j p s w tick h on q =
      let (tick', r, e) =
        >>=-eq-ok (round_of k b period s.phase (clock_at period t d j p) s w) _ q in
      let n = round-Next s.phase t d j p s w tick' h on.in_window on.votes_next r in
      subst (Next t d) (ok-inj e) (pruned_OnSchedule _ p tick'.state n)
