-- ===== src/Authority/Startup/Ready.antt =====
-- The state that newState returns.
use opt.Base.{
  ℕ, ◌≡◌, ◌⊎◌, refl, sym, ap, subst, Option, some, Bool, Bytes, Map, arith, Option-cases, inl, inr,
}
use opt.Base.Outcome.{ok, Outcome-cases}
use opt.Authority.Types.{Katzenpost}
use opt.Authority.State.{State}
use opt.Authority.Startup.{
  LocalNode, Setup, key_of, peer_tables, zkpki_new_state, new_state, extract_node, registered_node,
}
use opt.Authority.Run.{Fresh}
use opt.Authority.Startup.Tables.{Lists, peer_tables-Lists}
use opt.Authority.Restore.{Restoring, Metadata, restore_persistence}
use opt.Authority.Restore.Frame.{restore_persistence-SameBut}
use opt.Authority.Chain.{ChainBridge, Node, NodeConfig, ch_nodes_get, ch_nodes_register}

-- The node that the authority is for, and what the appchain answers for its name, at once or after
-- the node was registered: a key of the same hash as the configured one, which is the one kept.
pub record Registered {W : Type 0} {R : Type 0} (k : Katzenpost) (b : ChainBridge W R)
    (read_pem : Bytes → Option Bytes) (st : Setup) (w : W) (chain_key : Bytes) : Type 0 where
  pub local : LocalNode
  pub is_gateway : Bool
  pub is_service : Bool
  pub key : Bytes
  pub is_single : extract_node st ≡ some (local, is_gateway, is_service)
  pub key_read : key_of k read_pem st local ≡ ok key
  pub asked_in : W
  pub answer : Node
  pub chain_answers : (ch_nodes_get k b local.identifier asked_in).1 ≡ ok answer
  pub when :
      (asked_in ≡ w)
      ⊎ (asked_in
          ≡ (ch_nodes_register k b
              record { identifier = local.identifier; identity_public_key = key }
              is_gateway
              is_service
              (ch_nodes_get k b local.identifier w).0).0)
  pub is_answer : chain_key ≡ answer.identity_key
  pub same_key : k.sum256 chain_key ≡ k.sum256 key

module _ {W : Type 0} {R : Type 0} (k : Katzenpost) (b : ChainBridge W R)
    (read_pem : Bytes → Option Bytes) (st : Setup) where
  -- A node that is registered is what the appchain answers, before or after the registration.
  registered_asked :
      (v : LocalNode) (key : Bytes) (g sv : Bool) (w : W) (found : Node)
      → (registered_node k b v key g sv w).1 ≡ ok found
      → (u : W) × ((ch_nodes_get k b v.identifier u).1 ≡ ok found)
        × ((u ≡ w)
            ⊎ (u
                ≡ (ch_nodes_register k b
                    record { identifier = v.identifier; identity_public_key = key }
                    g
                    sv
                    (ch_nodes_get k b v.identifier w).0).0))
  unfolding registered_node
  registered_asked v key g sv w found h = elim (Outcome-cases (ch_nodes_get k b v.identifier w).1) [
    | inl (n, e) ↦ (w, ground arith, inl refl)
    | inr (inr e) ↦ absurd (ground arith)
    | inr (inl (m, e)) ↦
        let registering : NodeConfig = record {
          identifier = v.identifier;
          identity_public_key = key;
        } in
        let made = ch_nodes_register k b registering g sv (ch_nodes_get k b v.identifier w).0 in
        elim (Outcome-cases made.1) [
          | inl (d, e') ↦ (made.0, ground arith, inr refl)
          | inr (inl (m', e')) ↦ absurd (ground arith)
          | inr (inr e') ↦ absurd (ground arith)
        ]
  ]

  zkpki_new_state-Registered :
      (w : W) (key : Bytes)
      → (zkpki_new_state k b read_pem st w).1 ≡ ok key
      → Registered k b read_pem st w key
  unfolding zkpki_new_state
  zkpki_new_state-Registered w key h = elim (Option-cases (extract_node st)) [
    | inl n ↦ absurd (ground arith)
    | inr ((v, g, sv), n) ↦ elim (Outcome-cases (key_of k read_pem st v)) [
      | inr (inl (e, o)) ↦ absurd (ground arith)
      | inr (inr o) ↦ absurd (ground arith)
      | inl (own, o) ↦ elim (Outcome-cases (registered_node k b v own g sv w).1) [
        | inr (inl (e, q)) ↦ absurd (ground arith)
        | inr (inr q) ↦ absurd (ground arith)
        | inl (found, q) ↦
            let (u, answers, when) = registered_asked v own g sv w found q in
            record {
              asked_in = u;
              answer = found;
              chain_answers = answers;
              when = when;
              is_answer = ground arith;
              local = v;
              is_gateway = g;
              is_service = sv;
              key = own;
              is_single = n;
              key_read = o;
              same_key = ground arith;
            }
      ]
    ]
  ]

  -- The lists and the freshness do not rest on the buckets, the restored maps and the key.
  rebuild :
      (s t : State)
      → Lists k read_pem st s × Fresh s
      → let u = record s {
        descriptors = t.descriptors;
        replica_descriptors = t.replica_descriptors;
        documents = t.documents;
        db_documents = t.db_documents;
        db_descriptors = t.db_descriptors;
        db_replica_descriptors = t.db_replica_descriptors;
        authorized_key = t.authorized_key;
      } in
        Lists k read_pem st u × Fresh u
  rebuild s t (l, f) = (
    record {
      mixes_listed = l.mixes_listed;
      gateways_listed = l.gateways_listed;
      services_listed = l.services_listed;
      replicas_listed = l.replicas_listed;
      authorities_listed = l.authorities_listed;
    },
    record {
      first_phase = f.first_phase;
      no_votes = f.no_votes;
      no_commits = f.no_commits;
      no_reveals = f.no_reveals;
      no_certificates = f.no_certificates;
    },
  )

  -- A state that newState returns lists exactly the configured peers, begins a run (its phase is the
  -- first and nothing is voted, committed, revealed or certified), and its one local node stands in
  -- the appchain under the key that the configuration has for it.
  pub new_state-Ready :
      (rs : Restoring) (opened : Option (Metadata × Map Bytes × Map (Map Bytes) × Map (Map Bytes)))
      (now : ℕ) (w : W) (db : Metadata) (s : State)
      → (new_state k b rs read_pem st opened now w).1 ≡ ok (db, s)
      → Lists k read_pem st s × Fresh s × Registered k b read_pem st w s.authorized_key
  unfolding new_state
  new_state-Ready rs opened now w db s h = elim (Outcome-cases (peer_tables k read_pem st)) [
    | inr (inl (e, o)) ↦ absurd (ground arith)
    | inr (inr o) ↦ absurd (ground arith)
    | inl (base, o) ↦ elim (Outcome-cases (zkpki_new_state k b read_pem st w).1) [
      | inr (inl (e, q)) ↦ absurd (ground arith)
      | inr (inr q) ↦ absurd (ground arith)
      | inl (key, q) ↦ elim (Option-cases opened) [
        | inl n ↦ absurd (ground arith)
        | inr ((db0, docs, ds, reps), n) ↦
            let start : State = record base {
              authorized_key = key;
              db_documents = docs;
              db_descriptors = ds;
              db_replica_descriptors = reps;
            } in
            let restored : restore_persistence k rs db0 now start ≡ ok (db, s) = ground arith in
            let same = restore_persistence-SameBut k rs db0 db now start s restored in
            let key_kept : s.authorized_key ≡ key = ap (λ (x : State). x.authorized_key) same in
            let (lists, fresh) =
              subst (λ x. Lists k read_pem st x × Fresh x) (sym same)
                (rebuild start
                  (record s {
                    db_documents = docs;
                    db_descriptors = ds;
                    db_replica_descriptors = reps;
                    authorized_key = key;
                  })
                  (rebuild base start (peer_tables-Lists k read_pem st base o))) in
            (
              lists,
              fresh,
              subst (λ c. Registered k b read_pem st w c) (sym key_kept)
                  (zkpki_new_state-Registered w key q),
            )
      ]
    ]
  ]
