-- ===== src/Authority/Run/Invariants.antt =====
-- What holds in every state that a run can come to.
use opt.Base.{ℕ, ◌≡◌, refl, arith, lookup_at, lookup, subst, sym, ap, inl, inr, ◌≢◌, ◌∙◌, inner}
use opt.Base.Outcome.{ok, >>=-eq-ok, ok-inj}
use opt.Authority.Types.{Katzenpost}
use opt.Authority.State.{State}
use opt.Authority.Consensus.{Now}
use opt.Authority.Chain.{ChainBridge}
use opt.Authority.Upload.{on_reveal_upload}
use opt.Authority.Upload.Ballots.{
  Ballots, on_vote_upload-Ballots, on_cert_upload-Ballots, on_reveal_upload-Ballots,
  on_sig_upload-Ballots,
}
use opt.Authority.Wire.{
  PeerCredentials, Command, get_consensus, vote, cert, reveal, sig, post_descriptor,
  post_replica_descriptor, other, Response, on_authority, dispatch, on_conn,
}
use opt.Authority.Wire.Roles.{Role, authenticator_of, peer, wire_is_peer_valid_exact}
use opt.Authority.Wire.Reach.{
  Touches, on_conn-Touches, dispatch_frame, admitted, served_kem, stranger,
}
use opt.Authority.Fsm.Rounds.{Time, clock_at, Window, VotesNext, OnSchedule, fsm-OnSchedule}
use opt.Authority.Run.{Fresh, Reached, started, round, fetched, served}
use opt.Authority.Run.Frames.{
  SameStores, SameStores-Ballots, SamePlace, fsm-Ballots, finish_fetch_frame,
}

SamePlace-OnSchedule :
    (period : ℕ) (t : Time) (s s' : State)
    → SamePlace s s'
    → OnSchedule period t s
    → OnSchedule period t s'
SamePlace-OnSchedule period t s s' p h = record {
  in_window = subst (λ ph. Window period ph t.elapsed) (sym p.same_phase) h.in_window;
  votes_next =
      subst (λ ph. VotesNext ph t.epoch s'.voting_epoch) (sym p.same_phase)
        (subst (VotesNext s.phase t.epoch) (sym p.same_voting_epoch) h.votes_next);
}

fresh_Ballots : (s : State) → Fresh s → Ballots s
unfolding lookup_at inner lookup
fresh_Ballots s f = record {
  vote_backed = λ e q doc l. ground (arith, f.no_votes);
  reveal_backed = λ e q l. ground (arith, f.no_reveals);
  certificate_backed = λ e q l. ground (arith, f.no_certificates);
}

module _ (k : Katzenpost) (period : ℕ) (now : Now) where
  touched_place : (r : Role) (s t : State) → Touches r s t → SamePlace s t
  unfolding Touches
  touched_place Role.client s t h = record { same_phase = cc; same_voting_epoch = cc }
  touched_place Role.mix s t h = record { same_phase = cc; same_voting_epoch = cc }
  touched_place Role.replica s t h = record { same_phase = cc; same_voting_epoch = cc }
  touched_place Role.authority s t h = record { same_phase = cc; same_voting_epoch = cc }

  pub on_conn_place :
      (creds : PeerCredentials) (cmd : Command) (s t : State) (resp : Response)
      → on_conn k period now creds cmd s ≡ ok (t, resp)
      → SamePlace s t
  on_conn_place creds cmd s t resp q = elim (on_conn-Touches k period now creds cmd s t resp q) [
    | inl (r, _, h) ↦ touched_place r s t h
    | inr (_, e, _) ↦ record { same_phase = cc (e); same_voting_epoch = cc (e) }
  ]

  authority_Ballots :
      (cmd : Command) (s t : State) (resp : Response)
      → on_authority k period now cmd s ≡ ok (t, resp)
      → Ballots s
      → Ballots t
  unfolding on_authority
  authority_Ballots (vote u) s t resp q h =
      subst Ballots (ap (λ (r : State × Response). r.0) (ok-inj q)) (on_vote_upload-Ballots k u s h)
  authority_Ballots (cert u) s t resp q h =
      subst Ballots (ap (λ (r : State × Response). r.0) (ok-inj q)) (on_cert_upload-Ballots k u s h)
  authority_Ballots (reveal u) s t resp q h =
      let (r, e, e') = >>=-eq-ok (on_reveal_upload k u s) _ q in
      subst Ballots (ap (λ (r : State × Response). r.0) (ok-inj e'))
        (on_reveal_upload-Ballots k u s h r.0 r.1 e)
  authority_Ballots (sig u) s t resp q h =
      subst Ballots (ap (λ (r : State × Response). r.0) (ok-inj q)) (on_sig_upload-Ballots k u s h)
  authority_Ballots (get_consensus e) s t resp q h =
      subst Ballots (ap (λ (r : State × Response). r.0) (ok-inj q)) h
  authority_Ballots (post_descriptor e payload) s t resp q h =
      subst Ballots (ap (λ (r : State × Response). r.0) (ok-inj q)) h
  authority_Ballots (post_replica_descriptor e payload) s t resp q h =
      subst Ballots (ap (λ (r : State × Response). r.0) (ok-inj q)) h
  authority_Ballots other s t resp q h =
      subst Ballots (ap (λ (r : State × Response). r.0) (ok-inj q)) h

  touched_stores : (r : Role) (s t : State) → r ≢ Role.authority → Touches r s t → SameStores s t
  unfolding Touches
  touched_stores Role.client s t n h = ground arith
  touched_stores Role.mix s t n h = ground arith
  touched_stores Role.replica s t n h = ground arith
  touched_stores Role.authority s t n h = absurd (n refl)

  dispatch_Ballots :
      (r : Role) (p : ℕ) (cmd : Command) (s t : State) (resp : Response)
      → dispatch k period now (authenticator_of r p) cmd s ≡ ok (t, resp)
      → Ballots s
      → Ballots t
  unfolding dispatch authenticator_of
  dispatch_Ballots Role.authority p cmd s t resp q h = authority_Ballots cmd s t resp q h
  dispatch_Ballots Role.client p cmd s t resp q h =
      SameStores-Ballots s t
        (touched_stores Role.client s t (λ e. cc)
          (dispatch_frame k period now Role.client p cmd s t resp q))
        h
  dispatch_Ballots Role.mix p cmd s t resp q h =
      SameStores-Ballots s t
        (touched_stores Role.mix s t (λ e. cc)
          (dispatch_frame k period now Role.mix p cmd s t resp q))
        h
  dispatch_Ballots Role.replica p cmd s t resp q h =
      SameStores-Ballots s t
        (touched_stores Role.replica s t (λ e. cc)
          (dispatch_frame k period now Role.replica p cmd s t resp q))
        h

  pub on_conn-Ballots :
      (creds : PeerCredentials) (cmd : Command) (s t : State) (resp : Response)
      → on_conn k period now creds cmd s ≡ ok (t, resp)
      → Ballots s
      → Ballots t
  on_conn-Ballots creds cmd s t resp q h =
      let kem = served_kem k period now creds cmd s t resp q in
      elim (wire_is_peer_valid_exact s creds) [
        | inl (r, _, e) ↦
            dispatch_Ballots r (peer s creds) cmd s t resp
              (sym (admitted k period now creds cmd s r kem e) ∙ q) h
        | inr (e, _) ↦ subst Ballots (cc (stranger k period now creds cmd s kem e)) h
      ]

module _ {W : Type 0} {R : Type 0} (k : Katzenpost) (b : ChainBridge W R) (period : ℕ) where
  -- Whatever peers send and whatever the appchain answers, every state that timely rounds, fetches
  -- and connections lead to is on schedule: its phase waits for its window in the epoch, and the
  -- epoch that is voted on is the next one.
  pub Reached-OnSchedule :
      (t : Time) (s : State) (w : W) → Reached k b period t s w → OnSchedule period t s
  Reached-OnSchedule t s w (started _ _ _ f e) = record {
    in_window = subst (λ ph. Window period ph t.elapsed) (sym f.first_phase) e;
    votes_next = subst (λ ph. VotesNext ph t.epoch s.voting_epoch) (sym f.first_phase) tt;
  }
  Reached-OnSchedule t s w (round t' d j p s' w' tick r h q) =
      fsm-OnSchedule k b period t' d j p s' w' tick h (Reached-OnSchedule t' s' w' r) q
  Reached-OnSchedule t s w (fetched _ s' w' epoch r) =
      SamePlace-OnSchedule period t s' _ (finish_fetch_frame k b period epoch s' w').1
        (Reached-OnSchedule t s' w' r)
  Reached-OnSchedule t s w (served _ s' _ _ now creds cmd resp r q) =
      SamePlace-OnSchedule period t s' s (on_conn_place k period now creds cmd s' s resp q)
        (Reached-OnSchedule t s' w r)

  -- In every state that timely rounds, fetches and connections lead to, each vote belongs to its
  -- epoch and to an authority, whose commit in it is the one stored, each reveal belongs to an
  -- authority that committed, and each certificate to one that voted.
  pub Reached-Ballots : (t : Time) (s : State) (w : W) → Reached k b period t s w → Ballots s
  Reached-Ballots t s w (started _ _ _ f e) = fresh_Ballots s f
  Reached-Ballots t s w (round t' d j p s' w' tick r h q) =
      fsm-Ballots k b period (clock_at period t' d j p) s' w' tick q (Reached-Ballots t' s' w' r)
  Reached-Ballots t s w (fetched _ s' w' epoch r) =
      SameStores-Ballots s' _ (finish_fetch_frame k b period epoch s' w').0
        (Reached-Ballots t s' w' r)
  Reached-Ballots t s w (served _ s' _ _ now creds cmd resp r q) =
      on_conn-Ballots k period now creds cmd s' s resp q (Reached-Ballots t s' w r)
