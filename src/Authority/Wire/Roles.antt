-- ===== src/Authority/Wire/Roles.antt =====
-- wireAuthenticator.IsPeerValid and onConn: what a peer is taken for, and what it can reach.
use opt.Base.{
  ℕ, ◌≡◌, ◌≢◌, ◌⊎◌, inl, inr, some, none, Bytes, Bool, true, false, lookup, is_some, arith,
  Option-cases, Bool-cases, length, ◌||◌, ◌==◌, bytes_eq,
}
use opt.Authority.State.{State}
use opt.Authority.Wire.{
  PeerCredentials, Authenticator, new_authenticator, hash_of, wire_is_peer_valid,
}

pub data Role : Type 0 where
  client mix replica authority : Role

-- The authenticator of a peer with the role: one flag is set, and only a client's has no hash.
unfoldable pub authenticator_of : Role → ℕ → Authenticator
unfolding new_authenticator
authenticator_of Role.client pk = record new_authenticator { is_client = true }
authenticator_of Role.mix pk = record new_authenticator { peer_hash = pk; is_mix = true }
authenticator_of Role.replica pk = record new_authenticator { peer_hash = pk; is_replica = true }
authenticator_of Role.authority pk = record new_authenticator {
  peer_hash = pk;
  is_authority = true;
}

module _ (s : State) (creds : PeerCredentials) where
  abbrev pub peer : ℕ
  peer = hash_of creds.additional_data

  -- The hash is that of a mix, a gateway or a service node.
  abbrev pub listed_node : Bool
  listed_node =
      is_some (lookup peer s.authorized_mixes)
      || is_some (lookup peer s.authorized_gateway_nodes)
      || is_some (lookup peer s.authorized_service_nodes)

  -- What a peer must show for each role. A hash on several lists counts for the first of them.
  abbrev pub HasRole : Role → Type 0
  HasRole Role.client = length creds.additional_data ≡ 0
  HasRole Role.mix = (length creds.additional_data ≡ 32) × (listed_node ≡ true)
  HasRole Role.authority =
      (length creds.additional_data ≡ 32)
      × (listed_node ≡ false)
      × (is_some (lookup peer s.authorized_authorities) ≡ true)
      × ((link : Bytes) × (lookup peer s.authority_link_keys ≡ some link)
          × ((key : Bytes) × (creds.public_key ≡ some key) × (bytes_eq link key ≡ true)))
  HasRole Role.replica =
      (length creds.additional_data ≡ 32)
      × (listed_node ≡ false)
      × (lookup peer s.authorized_authorities ≡ none)
      × (is_some (lookup peer s.authorized_replica_nodes) ≡ true)

  has_authority :
      is_some (lookup peer s.authorized_authorities) ≡ true
      → listed_node ≡ false
      → length creds.additional_data ≡ 32
      → (wire_is_peer_valid s creds new_authenticator).1 ≡ true
      → HasRole Role.authority
  unfolding wire_is_peer_valid new_authenticator
  has_authority a n l h = elim (Option-cases (lookup peer s.authority_link_keys)) [
    | inl e ↦ absurd (ground arith)
    | inr (link, e) ↦ elim (Option-cases creds.public_key) [
      | inl e' ↦ absurd (ground arith)
      | inr (key, e') ↦ (l, n, a, (link, e, (key, e', ground arith)))
    ]
  ]

  refused_role : (r : Role) → HasRole r → (wire_is_peer_valid s creds new_authenticator).1 ≢ false
  unfolding wire_is_peer_valid new_authenticator
  refused_role Role.client e h = ground arith
  refused_role Role.mix (l, n) h = ground arith
  refused_role Role.replica (l, n, a, r) h = ground arith
  refused_role Role.authority (l, n, a, (link, e, (key, e', q))) h = ground arith

  -- A peer is let in exactly with the flags of one role, and only if it shows what the role asks.
  pub wire_is_peer_valid_exact :
      ((r : Role) × HasRole r
        × (wire_is_peer_valid s creds new_authenticator ≡ (authenticator_of r peer, true)))
      ⊎ (((wire_is_peer_valid s creds new_authenticator).1 ≡ false) × ((r : Role) → ¬ HasRole r))
  unfolding wire_is_peer_valid authenticator_of
  wire_is_peer_valid_exact = elim (Bool-cases (wire_is_peer_valid s creds new_authenticator).1) [
    | inl h ↦ elim (Bool-cases (length creds.additional_data == 0)) [
      | inl z ↦ inl (Role.client, ground arith, ground arith)
      | inr z ↦ elim (Bool-cases listed_node) [
        | inl n ↦ inl (Role.mix, (ground arith, n), ground arith)
        | inr n ↦ elim (Option-cases (lookup peer s.authorized_authorities)) [
          | inl a ↦ inl (Role.replica, (ground arith, n, a, ground arith), ground arith)
          | inr (b, a) ↦
              inl (Role.authority, has_authority (ground arith) n (ground arith) h, ground arith)
        ]
      ]
    ]
    | inr h ↦ inr (h, λ r e. refused_role r e h)
  ]
