-- ===== src/Authority/Wire.antt =====
-- pki/server/wire_handler.go: who may connect, and which handler a command reaches.
pub mod Roles
pub mod Reach
pub mod Post
pub mod PostReplica
pub mod Panics
use opt.Base.{
  ℕ, suc, String, List, [], ◌∷◌, Option, none, some, Bool, true, false, not, ◌&&◌, ◌||◌, Bytes,
  bytes_eq, lookup, is_some, length, take, ltb, ◌==◌, if◌then◌else◌, Map,
}
use opt.Base.Outcome.{Outcome, ok, panics, ◌>>=◌}
use opt.Authority.Types.{Katzenpost, MixDescriptor, ReplicaDescriptor, SignedUpload}
use opt.Authority.State.{State, add64, sub64}
use opt.Authority.Consensus.{Now, Reply, on_get_consensus}
use opt.Authority.Upload.{
  Upload, Status, big_endian, on_vote_upload, on_cert_upload, on_reveal_upload, on_sig_upload,
}
use opt.Authority.Descriptor.{
  Refusal, is_descriptor_authorized, is_replica_descriptor_authorized, on_descriptor_upload,
  on_replica_descriptor_upload,
}

-- wire.PeerCredentials; `public_key` may be nil.
pub record PeerCredentials : Type 0 where
  pub additional_data : Bytes
  pub public_key : Option Bytes

-- The flags of wireAuthenticator; `peer_hash` is peerIdentityKeyHash as a 32-byte number.
pub record Authenticator : Type 0 where
  pub peer_hash : ℕ
  pub is_client : Bool
  pub is_mix : Bool
  pub is_replica : Bool
  pub is_authority : Bool

unfoldable pub new_authenticator : Authenticator
new_authenticator = record {
  peer_hash = 0;
  is_client = false;
  is_mix = false;
  is_replica = false;
  is_authority = false;
}

abbrev pub hash_size : ℕ
hash_size = 32

-- The 32 bytes of the additional data as a map key.
abbrev pub hash_of : Bytes → ℕ
hash_of ad = big_endian 0 (take 32 ad)

-- `linkKey.Equal(creds.PublicKey)`, with the keys as their bytes.
unfoldable pub valid_authority : State → PeerCredentials → ℕ → Bool
valid_authority s creds pk = elim (lookup pk s.authority_link_keys) [
  | none ↦ false
  | some link ↦ elim creds.public_key [ none ↦ false | some key ↦ bytes_eq link key ]
]

unfoldable pub valid_node : State → PeerCredentials → Authenticator → Authenticator × Bool
unfolding valid_authority
valid_node s creds a =
    let pk = hash_of creds.additional_data in
    let a' = record a { peer_hash = pk } in
    if is_some (lookup pk s.authorized_mixes)
      || is_some (lookup pk s.authorized_gateway_nodes)
      || is_some (lookup pk s.authorized_service_nodes)
    then (record a' { is_mix = true }, true)
    else if is_some (lookup pk s.authorized_authorities)
    then (if valid_authority s creds pk
        then (record a' { is_authority = true }, true)
        else (a', false))
    else if is_some (lookup pk s.authorized_replica_nodes)
    then (record a' { is_replica = true }, true)
    else (a', false)

-- wireAuthenticator.IsPeerValid
unfoldable pub wire_is_peer_valid : State → PeerCredentials → Authenticator → Authenticator × Bool
unfolding valid_node
wire_is_peer_valid s creds a =
    if length creds.additional_data == 0
    then (record a { is_client = true }, true)
    else if length creds.additional_data == hash_size
    then valid_node s creds a
    else (a, false)

-- state.IsPeerValid, for the connections that the authority opens. Slicing the first 32 bytes of
-- shorter data panics.
unfoldable pub is_peer_valid : State → Bytes → Outcome Bool
is_peer_valid s ad =
    if ltb (length ad) hash_size
    then panics
    else ok (is_some (lookup (hash_of ad) s.authorized_authorities))

pub data Command : Type 0 where
  get_consensus : ℕ → Command
  post_descriptor : ℕ → Bytes → Command
  post_replica_descriptor : ℕ → Bytes → Command
  vote cert reveal sig : Upload → Command
  other : Command

-- The error codes of PostDescriptorStatus and PostReplicaDescriptorStatus.
pub data PostStatus : Type 0 where
  descriptor_ok descriptor_invalid descriptor_forbidden descriptor_conflict : PostStatus

-- What is sent back; `nothing` closes the connection.
pub data Response : Type 0 where
  consensus : Reply → Response
  posted : PostStatus → Response
  upload_status : Status → Response
  nothing : Response

unfoldable pub sane_epoch : Now → ℕ → Bool
sane_epoch now e = (e == sub64 now.epoch 1) || (e == now.epoch) || (e == add64 now.epoch 1)

module _ (k : Katzenpost) (period : ℕ) (now : Now) where
  abbrev pub status_of : Option Refusal → PostStatus
  status_of none = descriptor_ok
  status_of (some _) = descriptor_conflict

  -- The checks that follow the parse of the payload, on the descriptor of the upload.
  unfoldable pub accept_descriptor :
      ℕ → Bytes → ℕ → SignedUpload MixDescriptor → MixDescriptor → State → State × PostStatus
  accept_descriptor epoch payload peer up desc s =
      if not (k.sum256 desc.identity_key == peer)
      then (s, descriptor_forbidden)
      else if not (k.is_public_key desc.identity_key)
      then (s, descriptor_forbidden)
      else if not (k.verify_upload up desc.identity_key)
      then (s, descriptor_forbidden)
      else if not (is_descriptor_authorized k desc s)
      then (s, descriptor_forbidden)
      else let (s', refused) = on_descriptor_upload k payload desc epoch s in
        (s', status_of refused)

  -- The key of a nil descriptor is read, which panics.
  unfoldable pub on_post_descriptor : ℕ → Bytes → ℕ → State → Outcome (State × PostStatus)
  unfolding accept_descriptor
  on_post_descriptor epoch payload peer s =
      if sane_epoch now epoch
      then (elim (k.unmarshal_upload payload) [
        | none ↦ ok (s, descriptor_invalid)
        | some up ↦ elim up.descriptor [
          | none ↦ panics
          | some desc ↦ ok (accept_descriptor epoch payload peer up desc s)
        ]
      ])
      else ok (s, descriptor_invalid)

  unfoldable pub accept_replica_descriptor :
      ℕ
      → Bytes
      → ℕ
      → SignedUpload ReplicaDescriptor
      → ReplicaDescriptor
      → State
      → State × PostStatus
  accept_replica_descriptor epoch payload peer up desc s =
      if not (k.sum256 desc.identity_key == peer)
      then (s, descriptor_forbidden)
      else if not (k.is_public_key desc.identity_key)
      then (s, descriptor_forbidden)
      else if not (k.verify_replica_upload up desc.identity_key)
      then (s, descriptor_forbidden)
      else if not (is_replica_descriptor_authorized k desc s)
      then (s, descriptor_forbidden)
      else let (s', refused) = on_replica_descriptor_upload k payload desc epoch s in
        (s', status_of refused)

  unfoldable pub on_post_replica_descriptor : ℕ → Bytes → ℕ → State → Outcome (State × PostStatus)
  unfolding accept_replica_descriptor
  on_post_replica_descriptor epoch payload peer s =
      if sane_epoch now epoch
      then (elim (k.unmarshal_replica_upload payload) [
        | none ↦ ok (s, descriptor_invalid)
        | some up ↦ elim up.descriptor [
          | none ↦ panics
          | some desc ↦ ok (accept_replica_descriptor epoch payload peer up desc s)
        ]
      ])
      else ok (s, descriptor_invalid)

  abbrev pub Handled : Type 0
  Handled = Outcome (State × Response)

  abbrev answered : State × Status → Handled
  answered (s, st) = ok (s, upload_status st)

  abbrev posted_as : Outcome (State × PostStatus) → Handled
  posted_as r = do p ← r; ok (p.0, posted p.1)

  unfoldable pub on_client : Command → State → Handled
  on_client (get_consensus e) s = ok (s, consensus (on_get_consensus k period now e s))
  on_client _ s = ok (s, nothing)

  unfoldable pub on_mix : Command → ℕ → State → Handled
  on_mix (get_consensus e) peer s = ok (s, consensus (on_get_consensus k period now e s))
  on_mix (post_descriptor e payload) peer s = posted_as (on_post_descriptor e payload peer s)
  on_mix _ peer s = ok (s, nothing)

  unfoldable pub on_replica : Command → ℕ → State → Handled
  on_replica (post_replica_descriptor e payload) peer s =
      posted_as (on_post_replica_descriptor e payload peer s)
  on_replica _ peer s = ok (s, nothing)

  unfoldable pub on_authority : Command → State → Handled
  on_authority (get_consensus e) s = ok (s, consensus (on_get_consensus k period now e s))
  on_authority (vote u) s = answered (on_vote_upload k u s)
  on_authority (cert u) s = answered (on_cert_upload k u s)
  on_authority (reveal u) s = do r ← on_reveal_upload k u s; answered r
  on_authority (sig u) s = answered (on_sig_upload k u s)
  on_authority _ s = ok (s, nothing)

  -- The chain of ifs in onConn; the last is `panic("wtf")`.
  unfoldable pub dispatch : Authenticator → Command → State → Handled
  unfolding on_client on_mix on_replica on_authority
  dispatch a cmd s =
      if a.is_client
      then on_client cmd s
      else if a.is_mix
      then on_mix cmd a.peer_hash s
      else if a.is_replica
      then on_replica cmd a.peer_hash s
      else if a.is_authority
      then on_authority cmd s
      else panics

  -- A connection: without the configured KEM scheme a panic; the handshake asks the authenticator, and
  -- one command is answered.
  unfoldable pub on_conn : PeerCredentials → Command → State → Handled
  unfolding wire_is_peer_valid dispatch new_authenticator
  on_conn creds cmd s =
      let (a, valid) = wire_is_peer_valid s creds new_authenticator in
      if k.kem_known s.cfg.wire_kem_scheme
      then (if valid then dispatch a cmd s else ok (s, nothing))
      else panics
