-- ===== src/Authority/Wire/Reach.antt =====
-- onConn: what a connection can change.
use opt.Base.{ℕ, ◌≡◌, ◌⊎◌, inl, inr, Bytes, true, false, arith, refl, ◌∙◌, sym, Bool-cases}
use opt.Base.Outcome.{ok, panics, >>=-eq-ok}
use opt.Authority.Types.{Katzenpost}
use opt.Authority.State.{State}
use opt.Authority.Consensus.{Now}
use opt.Authority.Upload.{Upload, on_reveal_upload, on_vote_upload, on_cert_upload, on_sig_upload}
use opt.Authority.Descriptor.{on_descriptor_upload, on_replica_descriptor_upload}
use opt.Authority.Wire.{
  PeerCredentials, new_authenticator, wire_is_peer_valid, Command, PostStatus, get_consensus,
  post_descriptor, post_replica_descriptor, vote, cert, reveal, sig, Response, nothing, on_client,
  on_mix, on_replica, on_authority, dispatch, on_conn, on_post_descriptor,
  on_post_replica_descriptor,
}
use opt.Authority.Wire.Roles.{Role, authenticator_of, peer, HasRole, wire_is_peer_valid_exact}

-- The fields that a peer of each role can change.
unfoldable pub Touches : Role → State → State → Type 0
Touches Role.client s t = t ≡ s
Touches Role.mix s t =
    t ≡ record s { descriptors = t.descriptors; db_descriptors = t.db_descriptors }
Touches Role.replica s t = t ≡ record s {
  replica_descriptors = t.replica_descriptors;
  db_replica_descriptors = t.db_replica_descriptors;
}
Touches Role.authority s t = t ≡ record s {
  votes = t.votes;
  commits = t.commits;
  certificates = t.certificates;
  reveals = t.reveals;
  signatures = t.signatures;
}

module _ (k : Katzenpost) (period : ℕ) (now : Now) where
  on_post_descriptor_frame :
      (e : ℕ) (payload : Bytes) (p : ℕ) (s t : State) (st : PostStatus)
      → on_post_descriptor k period now e payload p s ≡ ok (t, st)
      → Touches Role.mix s t
  unfolding on_post_descriptor on_descriptor_upload Touches
  on_post_descriptor_frame e payload p s t st h = ground arith

  on_post_replica_descriptor_frame :
      (e : ℕ) (payload : Bytes) (p : ℕ) (s t : State) (st : PostStatus)
      → on_post_replica_descriptor k period now e payload p s ≡ ok (t, st)
      → Touches Role.replica s t
  unfolding on_post_replica_descriptor on_replica_descriptor_upload Touches
  on_post_replica_descriptor_frame e payload p s t st h = ground arith

  on_vote_frame : (u : Upload) (s : State) → Touches Role.authority s (on_vote_upload k u s).0
  unfolding on_vote_upload Touches
  on_vote_frame u s = ground arith

  on_cert_frame : (u : Upload) (s : State) → Touches Role.authority s (on_cert_upload k u s).0
  unfolding on_cert_upload Touches
  on_cert_frame u s = ground arith

  on_sig_frame : (u : Upload) (s : State) → Touches Role.authority s (on_sig_upload k u s).0
  unfolding on_sig_upload Touches
  on_sig_frame u s = ground arith

  on_reveal_frame :
      (u : Upload) (s : State)
      → (t : State) (resp : Response) → on_authority k period now (reveal u) s ≡ ok (t, resp)
      → Touches Role.authority s t
  unfolding on_authority on_reveal_upload Touches
  on_reveal_frame u s t resp h = ground arith

  client_frame :
      (cmd : Command) (s t : State) (resp : Response)
      → on_client k period now cmd s ≡ ok (t, resp)
      → Touches Role.client s t
  unfolding on_client Touches
  client_frame (get_consensus e) s t resp h = cc
  client_frame cmd s t resp h = cc

  mix_frame :
      (cmd : Command) (p : ℕ) (s t : State) (resp : Response)
      → on_mix k period now cmd p s ≡ ok (t, resp)
      → Touches Role.mix s t
  unfolding on_mix Touches
  mix_frame (get_consensus e) p s t resp h = ground arith
  mix_frame (post_descriptor e payload) p s t resp h =
      let (r, q, q') = >>=-eq-ok (on_post_descriptor k period now e payload p s) _ h in
      on_post_descriptor_frame e payload p s t r.1 (ground arith)
  mix_frame cmd p s t resp h = ground arith

  replica_frame :
      (cmd : Command) (p : ℕ) (s t : State) (resp : Response)
      → on_replica k period now cmd p s ≡ ok (t, resp)
      → Touches Role.replica s t
  unfolding on_replica Touches
  replica_frame (post_replica_descriptor e payload) p s t resp h =
      let (r, q, q') = >>=-eq-ok (on_post_replica_descriptor k period now e payload p s) _ h in
      on_post_replica_descriptor_frame e payload p s t r.1 (ground arith)
  replica_frame cmd p s t resp h = ground arith

  authority_frame :
      (cmd : Command) (s t : State) (resp : Response)
      → on_authority k period now cmd s ≡ ok (t, resp)
      → Touches Role.authority s t
  unfolding on_authority Touches
  authority_frame (vote u) s t resp h = ground (arith, on_vote_frame u s)
  authority_frame (cert u) s t resp h = ground (arith, on_cert_frame u s)
  authority_frame (reveal u) s t resp h = on_reveal_frame u s t resp h
  authority_frame (sig u) s t resp h = ground (arith, on_sig_frame u s)
  authority_frame cmd s t resp h = ground arith

  pub dispatch_frame :
      (r : Role) (p : ℕ) (cmd : Command) (s t : State) (resp : Response)
      → dispatch k period now (authenticator_of r p) cmd s ≡ ok (t, resp)
      → Touches r s t
  unfolding dispatch authenticator_of
  dispatch_frame Role.client p cmd s t resp h = client_frame cmd s t resp h
  dispatch_frame Role.mix p cmd s t resp h = mix_frame cmd p s t resp h
  dispatch_frame Role.replica p cmd s t resp h = replica_frame cmd p s t resp h
  dispatch_frame Role.authority p cmd s t resp h = authority_frame cmd s t resp h

  module _ (creds : PeerCredentials) (cmd : Command) (s : State) where
    pub admitted :
        (r : Role)
        → k.kem_known s.cfg.wire_kem_scheme ≡ true
        → wire_is_peer_valid s creds new_authenticator ≡ (authenticator_of r (peer s creds), true)
        → on_conn k period now creds cmd s
          ≡ dispatch k period now (authenticator_of r (peer s creds)) cmd s
    unfolding on_conn
    admitted r kem e = rw (kem, e) refl

    pub stranger :
        k.kem_known s.cfg.wire_kem_scheme ≡ true
        → (wire_is_peer_valid s creds new_authenticator).1 ≡ false
        → on_conn k period now creds cmd s ≡ ok (s, nothing)
    unfolding on_conn
    stranger kem e = rw (kem, e) refl

    pub no_kem :
        k.kem_known s.cfg.wire_kem_scheme ≡ false → on_conn k period now creds cmd s ≡ panics
    unfolding on_conn
    no_kem kem = rw kem refl

    pub served_kem :
        (t : State) (resp : Response)
        → on_conn k period now creds cmd s ≡ ok (t, resp)
        → k.kem_known s.cfg.wire_kem_scheme ≡ true
    served_kem t resp h = elim (Bool-cases (k.kem_known s.cfg.wire_kem_scheme)) [
      | inl yes' ↦ yes'
      | inr no' ↦ absurd (cc (no_kem no'))
    ]

    -- A connection that is served belongs to a peer with one of the roles and changes only what the
    -- role may change; that of a peer without a role changes nothing and sends nothing.
    pub on_conn-Touches :
        (t : State) (resp : Response)
        → on_conn k period now creds cmd s ≡ ok (t, resp)
        → ((r : Role) × HasRole s creds r × Touches r s t)
          ⊎ (((r : Role) → ¬ HasRole s creds r) × (t ≡ s) × (resp ≡ nothing))
    on_conn-Touches t resp h =
        let kem = served_kem t resp h in
        elim (wire_is_peer_valid_exact s creds) [
          | inl (r, has, e) ↦
              inl
                (r, has, dispatch_frame r (peer s creds) cmd s t resp (sym (admitted r kem e) ∙ h))
          | inr (e, none_has) ↦ inr (none_has, cc (stranger kem e), cc (stranger kem e))
        ]
