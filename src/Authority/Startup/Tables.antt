-- ===== src/Authority/Startup/Tables.antt =====
-- The peer tables of newState: whom they list, and that the state is one that a run begins with.
use opt.Base.{
  ℕ, String, ◌≡◌, ◌↔◌, ◌⊎◌, refl, sym, ap, subst, ◌∙◌, List, [], ◌∷◌, Option, Bool, true, Bytes,
  Map, lookup, insert, lookup-insert, is_some, arith, Bool-cases, inl, inr, ◌==◌, ==_iff,
}
use opt.Base.Outcome.{ok, ok-inj, >>=-eq-ok}
use opt.Authority.Types.{Katzenpost}
use opt.Authority.State.{State}
use opt.Authority.Startup.{
  LocalNode, Peer, Setup, key_of, authorize, keys_by_hash, peer_table, peer_tables,
}
use opt.Authority.Run.{Fresh}

module _ (k : Katzenpost) (read_pem : Bytes → Option Bytes) (st : Setup) where
  -- A node of the list whose key file holds a key of this hash.
  abbrev pub Listed : ℕ → List LocalNode → Type 0
  Listed pk [] = ⊥
  Listed pk (v ∷ vs) =
      ((key : Bytes) × (key_of k read_pem st v ≡ ok key) × (k.sum256 key ≡ pk)) ⊎ Listed pk vs

  authorize-Listed :
      {V : Type 0} (entry : LocalNode → V) (vs : List LocalNode) (m m' : Map V) (pk : ℕ)
      → authorize k read_pem st entry vs m ≡ ok m'
      → (is_some (lookup pk m') ≡ true) ↔ ((is_some (lookup pk m) ≡ true) ⊎ Listed pk vs)
  unfolding authorize
  authorize-Listed entry [] m m' pk h = (
    (λ e. inl (ap (λ t. is_some (lookup pk t)) (ok-inj h) ∙ e)),
    (λ e. elim e [
      | inl p ↦ ap (λ t. is_some (lookup pk t)) (sym (ok-inj h)) ∙ p
      | inr a ↦ absurd a
    ]),
  )
  authorize-Listed entry (v ∷ vs) m m' pk h =
      let (key, found, rest) = >>=-eq-ok (key_of k read_pem st v) _ h in
      let entered = lookup-insert (k.sum256 key) pk (entry v) m in
      let ih = authorize-Listed entry vs (insert (k.sum256 key) (entry v) m) m' pk rest in
      (
        (λ e. elim (ih.0 e) [
          | inr later ↦ inr (inr later)
          | inl p ↦ elim (Bool-cases (k.sum256 key == pk)) [
            | inl hit ↦ inr (inl (key, found, (==_iff (k.sum256 key) pk).0 hit))
            | inr miss ↦ inl (ground arith)
          ]
        ]),
        (λ e. elim e [
          | inl p ↦ ih.1 (inl (ground arith))
          | inr (inr later) ↦ ih.1 (inr later)
          | inr (inl (key', found', same)) ↦
              let one : key ≡ key' = ok-inj (sym found ∙ found') in ih.1 (inl (ground arith))
        ]),
      )

-- An authority of this hash.
abbrev pub Peered : Katzenpost → ℕ → List Peer → Type 0
Peered k pk [] = ⊥
Peered k pk (v ∷ vs) = (k.sum256 v.identity_public_key ≡ pk) ⊎ Peered k pk vs

peer_table-Peered :
    (k : Katzenpost) {V : Type 0} (entry : Peer → V) (vs : List Peer) (m : Map V) (pk : ℕ)
    → (is_some (lookup pk (peer_table k entry vs m)) ≡ true)
      ↔ ((is_some (lookup pk m) ≡ true) ⊎ Peered k pk vs)
unfolding peer_table
peer_table-Peered k entry [] m pk = ((λ e. inl e), (λ e. elim e [ inl p ↦ p | inr a ↦ absurd a ]))
peer_table-Peered k entry (v ∷ vs) m pk =
    let key = k.sum256 v.identity_public_key in
    let entered = lookup-insert key pk (entry v) m in
    let ih = peer_table-Peered k entry vs (insert key (entry v) m) pk in
    (
      (λ e. elim (ih.0 e) [
        | inr later ↦ inr (inr later)
        | inl p ↦ elim (Bool-cases (key == pk)) [
          | inl hit ↦ inr (inl ((==_iff key pk).0 hit))
          | inr miss ↦ inl (ground arith)
        ]
      ]),
      (λ e. elim e [
        | inl p ↦ ih.1 (inl (ground arith))
        | inr (inr later) ↦ ih.1 (inr later)
        | inr (inl same) ↦ ih.1 (inl (ground arith))
      ]),
    )

-- The tables list exactly the configured peers, by the hashes of their keys.
pub record Lists (k : Katzenpost) (read_pem : Bytes → Option Bytes) (st : Setup) (s : State)
    : Type 0 where
  pub mixes_listed :
      (pk : ℕ) → (is_some (lookup pk s.authorized_mixes) ≡ true) ↔ Listed k read_pem st pk st.mixes
  pub gateways_listed :
      (pk : ℕ)
      → (is_some (lookup pk s.authorized_gateway_nodes) ≡ true)
        ↔ Listed k read_pem st pk st.gateway_nodes
  pub services_listed :
      (pk : ℕ)
      → (is_some (lookup pk s.authorized_service_nodes) ≡ true)
        ↔ Listed k read_pem st pk st.service_nodes
  pub replicas_listed :
      (pk : ℕ)
      → (is_some (lookup pk s.authorized_replica_nodes) ≡ true)
        ↔ Listed k read_pem st pk st.storage_replicas
  pub authorities_listed :
      (pk : ℕ) → (is_some (lookup pk s.authorized_authorities) ≡ true) ↔ Peered k pk st.authorities

-- Beginning with an empty table.
from_empty :
    (V : Type 0) (pk : ℕ) {P : Type 0} {now : Type 0}
    → now ↔ ((is_some (lookup {V = V} pk []) ≡ true) ⊎ P)
    → now ↔ P
unfolding lookup
from_empty V pk h = ((λ e. elim (h.0 e) [ inl p ↦ absurd (cc) | inr q ↦ q ]), (λ q. h.1 (inr q)))

module _ (k : Katzenpost) (read_pem : Bytes → Option Bytes) (st : Setup) (s : State) where
  pub peer_tables-Lists : peer_tables k read_pem st ≡ ok s → Lists k read_pem st s × Fresh s
  unfolding peer_tables
  peer_tables-Lists h =
      let (mixes, m, h1) = >>=-eq-ok (authorize k read_pem st (λ v. true) st.mixes []) _ h in
      let (by_mixes, m', h2) = >>=-eq-ok (keys_by_hash k read_pem st st.mixes []) _ h1 in
      let (gateways, g, h3) =
        >>=-eq-ok (authorize k read_pem st (λ v. v.identifier) st.gateway_nodes []) _ h2 in
      let (by_gateways, g', h4) =
        >>=-eq-ok (keys_by_hash k read_pem st st.gateway_nodes by_mixes) _ h3 in
      let (services, v, h5) =
        >>=-eq-ok (authorize k read_pem st (λ v. v.identifier) st.service_nodes []) _ h4 in
      let (by_services, v', h6) =
        >>=-eq-ok (keys_by_hash k read_pem st st.service_nodes by_gateways) _ h5 in
      let (replicas, r, h7) =
        >>=-eq-ok (authorize k read_pem st (λ v. v.identifier) st.storage_replicas []) _ h6 in
      let made = ok-inj h7 in
      (
        record {
          mixes_listed = λ pk.
              subst
                (λ (x : State).
                  (is_some (lookup pk x.authorized_mixes) ≡ true)
                  ↔ Listed k read_pem st pk st.mixes)
                made
                (from_empty Bool pk
                  (authorize-Listed k read_pem st (λ v. true) st.mixes [] mixes pk m));
          gateways_listed = λ pk.
              subst
                (λ (x : State).
                  (is_some (lookup pk x.authorized_gateway_nodes) ≡ true)
                  ↔ Listed k read_pem st pk st.gateway_nodes)
                made
                (from_empty String pk (
                  authorize-Listed k read_pem st (λ v. v.identifier) st.gateway_nodes [] gateways pk
                    g));
          services_listed = λ pk.
              subst
                (λ (x : State).
                  (is_some (lookup pk x.authorized_service_nodes) ≡ true)
                  ↔ Listed k read_pem st pk st.service_nodes)
                made
                (from_empty String pk (
                  authorize-Listed k read_pem st (λ v. v.identifier) st.service_nodes [] services pk
                    v));
          replicas_listed = λ pk.
              subst
                (λ (x : State).
                  (is_some (lookup pk x.authorized_replica_nodes) ≡ true)
                  ↔ Listed k read_pem st pk st.storage_replicas)
                made
                (from_empty String pk (
                  authorize-Listed k read_pem st (λ v. v.identifier) st.storage_replicas [] replicas
                    pk r));
          authorities_listed = λ pk.
              subst
                (λ (x : State).
                  (is_some (lookup pk x.authorized_authorities) ≡ true)
                  ↔ Peered k pk st.authorities)
                made (from_empty Bool pk (peer_table-Peered k (λ v. true) st.authorities [] pk));
        },
        subst Fresh made record {
          first_phase = refl;
          no_votes = refl;
          no_commits = refl;
          no_reveals = refl;
          no_certificates = refl;
        },
      )
