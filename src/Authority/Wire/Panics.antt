-- ===== src/Authority/Wire/Panics.antt =====
-- onConn: when a connection ends in a panic.
use opt.Base.{
  ℕ, ◌≡◌, ◌≢◌, ◌⊎◌, ◌↔◌, inl, inr, some, none, Bytes, true, false, arith, refl, ◌∙◌, sym,
  Option-cases, Bool-cases,
}
use opt.Base.Outcome.{panics}
use opt.Authority.Types.{Katzenpost, MixDescriptor, ReplicaDescriptor, SignedUpload}
use opt.Authority.State.{State}
use opt.Authority.Consensus.{Now}
use opt.Authority.Upload.{Upload, on_reveal_upload}
use opt.Authority.Wire.{
  PeerCredentials, new_authenticator, wire_is_peer_valid, Command, get_consensus, post_descriptor,
  post_replica_descriptor, vote, cert, reveal, sig, sane_epoch, on_client, on_mix, on_replica,
  on_authority, dispatch, on_conn, on_post_descriptor, on_post_replica_descriptor,
}
use opt.Authority.Wire.Roles.{Role, authenticator_of, peer, wire_is_peer_valid_exact}
use opt.Authority.Wire.Reach.{admitted, stranger, no_kem}

module _ (k : Katzenpost) (period : ℕ) (now : Now) where
  -- A node, or a replica, posts for an epoch near the current one an upload that parses without a
  -- descriptor.
  pub record PostsNil (cmd : Command) : Type 0 where
    pub epoch : ℕ
    pub payload : Bytes
    pub up : SignedUpload MixDescriptor
    pub posts : cmd ≡ post_descriptor epoch payload
    pub sane : sane_epoch now epoch ≡ true
    pub parses : k.unmarshal_upload payload ≡ some up
    pub is_nil : up.descriptor ≡ none

  pub record PostsNilReplica (cmd : Command) : Type 0 where
    pub epoch : ℕ
    pub payload : Bytes
    pub up : SignedUpload ReplicaDescriptor
    pub posts : cmd ≡ post_replica_descriptor epoch payload
    pub sane : sane_epoch now epoch ≡ true
    pub parses : k.unmarshal_replica_upload payload ≡ some up
    pub is_nil : up.descriptor ≡ none

  -- The commands on which the handler of a role panics; that of clients never does.
  unfoldable pub PanicsOn : Role → Command → State → Type 0
  PanicsOn Role.client cmd s = false ≡ true
  PanicsOn Role.mix cmd s = PostsNil cmd
  PanicsOn Role.replica cmd s = PostsNilReplica cmd
  PanicsOn Role.authority cmd s =
      (u : Upload) × (cmd ≡ reveal u) × (on_reveal_upload k u s ≡ panics)

  client_panics : (cmd : Command) (s : State) → on_client k period now cmd s ≢ panics
  unfolding on_client
  client_panics (get_consensus e) s h = cc
  client_panics cmd s h = cc

  mix_panics :
      (cmd : Command) (p : ℕ) (s : State) → on_mix k period now cmd p s ≡ panics → PostsNil cmd
  unfolding on_mix on_post_descriptor
  mix_panics (get_consensus e) p s h = absurd cc
  mix_panics (post_descriptor e payload) p s h = elim (Bool-cases (sane_epoch now e)) [
    | inr z ↦ absurd (ground arith)
    | inl z ↦ elim (Option-cases (k.unmarshal_upload payload)) [
      | inl n ↦ absurd (ground arith)
      | inr (up, n) ↦ elim (Option-cases up.descriptor) [
        | inr (d, q) ↦ absurd (ground arith)
        | inl q ↦ record {
          epoch = e;
          payload = payload;
          up = up;
          posts = refl;
          sane = z;
          parses = n;
          is_nil = q;
        }
      ]
    ]
  ]
  mix_panics cmd p s h = absurd cc

  replica_panics :
      (cmd : Command) (p : ℕ) (s : State)
      → on_replica k period now cmd p s ≡ panics
      → PostsNilReplica cmd
  unfolding on_replica on_post_replica_descriptor
  replica_panics (post_replica_descriptor e payload) p s h = elim (Bool-cases (sane_epoch now e)) [
    | inr z ↦ absurd (ground arith)
    | inl z ↦ elim (Option-cases (k.unmarshal_replica_upload payload)) [
      | inl n ↦ absurd (ground arith)
      | inr (up, n) ↦ elim (Option-cases up.descriptor) [
        | inr (d, q) ↦ absurd (ground arith)
        | inl q ↦ record {
          epoch = e;
          payload = payload;
          up = up;
          posts = refl;
          sane = z;
          parses = n;
          is_nil = q;
        }
      ]
    ]
  ]
  replica_panics cmd p s h = absurd cc

  authority_panics :
      (cmd : Command) (s : State)
      → on_authority k period now cmd s ≡ panics
      → PanicsOn Role.authority cmd s
  unfolding on_authority PanicsOn
  authority_panics (get_consensus e) s h = absurd cc
  authority_panics (vote u) s h = absurd cc
  authority_panics (cert u) s h = absurd cc
  authority_panics (reveal u) s h = (u, refl, ground arith)
  authority_panics (sig u) s h = absurd cc
  authority_panics cmd s h = absurd cc

  dispatch_panics :
      (r : Role) (p : ℕ) (cmd : Command) (s : State)
      → dispatch k period now (authenticator_of r p) cmd s ≡ panics
      → PanicsOn r cmd s
  unfolding dispatch authenticator_of PanicsOn
  dispatch_panics Role.client p cmd s h = absurd (client_panics cmd s h)
  dispatch_panics Role.mix p cmd s h = mix_panics cmd p s h
  dispatch_panics Role.replica p cmd s h = replica_panics cmd p s h
  dispatch_panics Role.authority p cmd s h = authority_panics cmd s h

  post_panics :
      (r : Role) (p : ℕ) (cmd : Command) (s : State)
      → PanicsOn r cmd s
      → dispatch k period now (authenticator_of r p) cmd s ≡ panics
  unfolding dispatch on_mix on_replica on_authority on_post_descriptor on_post_replica_descriptor
      authenticator_of PanicsOn
  post_panics Role.client p cmd s h = absurd cc
  post_panics Role.mix p cmd s h = rw (h.posts, h.sane, h.parses, h.is_nil) refl
  post_panics Role.replica p cmd s h = rw (h.posts, h.sane, h.parses, h.is_nil) refl
  post_panics Role.authority p cmd s (u, c, q) = rw (c, q) refl

  -- A connection panics exactly if the configured KEM scheme is not known, or a node or a replica
  -- posts, for an epoch near the current one, an upload that parses without a descriptor, or an
  -- authority sends a reveal on which the handler panics. The last branch of the dispatch is never
  -- reached.
  pub on_conn-panics :
      (creds : PeerCredentials) (cmd : Command) (s : State)
      → (on_conn k period now creds cmd s ≡ panics) ↔ (
          (k.kem_known s.cfg.wire_kem_scheme ≡ false)
          ⊎ ((r : Role) × (wire_is_peer_valid s creds new_authenticator
                ≡ (authenticator_of r (peer s creds), true))
              × PanicsOn r cmd s))
  on_conn-panics creds cmd s = (
    λ h. elim (Bool-cases (k.kem_known s.cfg.wire_kem_scheme)) [
      | inr no' ↦ inl no'
      | inl kem ↦ elim (wire_is_peer_valid_exact s creds) [
        | inl (r, has, e) ↦ inr (
          r,
          e,
          dispatch_panics r (peer s creds) cmd s
              (sym (admitted k period now creds cmd s r kem e) ∙ h),
        )
        | inr (e, none_has) ↦ absurd (cc (stranger k period now creds cmd s kem e))
      ]
    ],
    λ c. elim (Bool-cases (k.kem_known s.cfg.wire_kem_scheme)) [
      | inr no' ↦ no_kem k period now creds cmd s no'
      | inl kem ↦ elim c [
        | inl no' ↦ absurd cc
        | inr (r, e, p) ↦
            admitted k period now creds cmd s r kem e ∙ post_panics r (peer s creds) cmd s p
      ]
    ],
  )
