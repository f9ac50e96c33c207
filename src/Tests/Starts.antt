-- ===== src/Tests/Starts.antt =====
-- Starts of the authority: its keys, its peer tables, and what it restores.
use opt.Base.{
  ℕ, arith, ◌⊎◌, ◌≡◌, ◌↔◌, refl, sym, subst, [], ◌∷◌, Option, none, some, true, Bool-cases, inl,
  inr, Bytes, Map, lookup, lookup_at, inner, insert, ensure, store, ◌==◌, if◌then◌else◌,
}
use opt.Base.Texts.{bytes_of, has_prefix}
use opt.Base.Unique.{IsMap}
use opt.Base.Outcome.{ok, panics}
use opt.Authority.State.{State}
use opt.Authority.Chain.{ChainBridge, ch_nodes_get}
use opt.Authority.Descriptor.{on_descriptor_upload, is_descriptor_authorized}
use opt.Authority.Run.{Fresh}
use opt.Authority.Restore.{Restoring, Metadata, restore_persistence, around}
use opt.Authority.Restore.Frame.{is_reached}
use opt.Authority.Restore.Bucket.{in_bucket}
use opt.Authority.Restore.Kept.{restore_persistence-lookup, upload-restored}
use opt.Authority.Startup.{Setup, new_state}
use opt.Authority.Startup.Tables.{Lists}
use opt.Authority.Startup.Ready.{Registered, new_state-Ready}
use opt.Authority.Startup.Keys.{Scheme, server_keys, ReadsBack, server_keys-first_start}
use opt.Tests.World.{packages, appchain, settings, started_state, voting_state, mix_11}

abbrev tail_of : Bytes → Option Bytes
tail_of [] = none
tail_of (c ∷ cs) = some cs

abbrev scheme_of : ℕ → Scheme
scheme_of n = record {
  make_key = some (n ∷ [], n ∷ n ∷ []);
  to_pem = λ key. 0 ∷ key;
  from_private_pem = tail_of;
  from_public_pem = tail_of;
  writes_private = true;
  writes_public = true;
}

abbrev scheme_reads : (n : ℕ) → ReadsBack (scheme_of n) (n ∷ []) (n ∷ n ∷ [])
scheme_reads n = record {
  generates = refl;
  can_write = refl;
  can_write_public = refl;
  private_back = refl;
  public_back = refl;
}

server_keys-first_start_example :
    let first =
      server_keys
        (scheme_of 3)
        (some (scheme_of 4))
        record { identity = (none, none); link = (none, none) } in
    (first.1 ≡ panics)
    × (first.0 ≡ record {
      identity = (some (0 ∷ 3 ∷ []), some (0 ∷ 3 ∷ 3 ∷ []));
      link = (some (0 ∷ 4 ∷ []), some (0 ∷ 4 ∷ 4 ∷ []));
    })
    × ((server_keys (scheme_of 3) (some (scheme_of 4)) first.0).1 ≡ ok (3 ∷ 3 ∷ [], 4 ∷ []))
server_keys-first_start_example =
    server_keys-first_start (scheme_of 3) (scheme_of 4) (3 ∷ []) (3 ∷ 3 ∷ []) (4 ∷ []) (4 ∷ 4 ∷ [])
      (scheme_reads 3) (scheme_reads 4)

-- One mix, whose key is in the appchain.
abbrev chain : ChainBridge ℕ Bytes
chain = record appchain { data_node = λ r. some record { identifier = "mix-1"; identity_key = r } }

abbrev setup : Setup
setup = record {
  cfg = settings;
  data_dir = bytes_of "/opt/auth";
  mixes =
      record {
        identifier = "mix-1";
        identity_public_key_pem = bytes_of "../mix-1/identity.public.pem";
      }
      ∷ [];
  gateway_nodes = [];
  service_nodes = [];
  storage_replicas = [];
  authorities =
      record { identifier = "auth-1"; identity_public_key = 1 ∷ []; link_public_key = 5 ∷ [] } ∷ [];
  identity_public_key = 1 ∷ [];
}

abbrev pem : Bytes → Option Bytes
pem path = some (11 ∷ [])

abbrev pub restoring : Restoring
restoring = record { unmarshal_replica = λ b. none; verify_threshold = λ n b. true }

abbrev new_database : Metadata
new_database = record { version = none }

abbrev ready : State
ready = record started_state {
  reverse_hash = (11, 11 ∷ []) ∷ (1, 1 ∷ []) ∷ [];
  authorized_mixes = (11, true) ∷ [];
  authorized_replica_nodes = [];
  authorized_authorities = (1, true) ∷ [];
  authority_link_keys = (1, 5 ∷ []) ∷ [];
  threshold = 1;
  authorized_key = 11 ∷ [];
}

started :
    (new_state packages chain restoring pem setup (some (new_database, [], [], [])) 5 0).1
    ≡ ok (record new_database { version = some (0 ∷ []) }, ready)
unfolding new_state restore_persistence insert has_prefix ch_nodes_get
started = refl

new_state-Ready_example :
    Lists packages pem setup ready × Fresh ready × Registered packages chain pem setup 0 (11 ∷ [])
new_state-Ready_example =
    new_state-Ready packages chain pem setup restoring (some (new_database, [], [], [])) 5 0
      record new_database { version = some (0 ∷ []) } ready started

-- A descriptor of the epoch 5, and a start on the database that it leaves.
abbrev raw_11 : Bytes
raw_11 = 11 ∷ []

abbrev buckets : Map (Map Bytes)
buckets = (5, (11, raw_11) ∷ []) ∷ []

abbrev after_upload : State
after_upload = record voting_state {
  descriptors = (5, (11, mix_11) ∷ []) ∷ [];
  db_descriptors = buckets;
}

uploaded : on_descriptor_upload packages raw_11 mix_11 5 voting_state ≡ (after_upload, none)
unfolding on_descriptor_upload ensure store lookup lookup_at inner insert
uploaded = refl

abbrev pub old_database : Metadata
old_database = record { version = some (0 ∷ []) }

abbrev restarted : State
restarted = record started_state { db_descriptors = buckets }

abbrev restored : State
restored = record restarted { descriptors = (5, (11, mix_11) ∷ []) ∷ [] }

restored_run :
    restore_persistence packages restoring old_database 5 restarted ≡ ok (old_database, restored)
unfolding restore_persistence is_descriptor_authorized ensure store lookup lookup_at inner insert
restored_run = refl

inner_cases : (e : ℕ) → (inner e buckets ≡ []) ⊎ (inner e buckets ≡ (11, raw_11) ∷ [])
unfolding inner lookup
inner_cases e = elim (Bool-cases (5 == e)) [
  | inl hit ↦ inr (ground arith)
  | inr miss ↦ inl (ground arith)
]

buckets-IsMap : (e : ℕ) → IsMap (inner e buckets)
buckets-IsMap e = elim (inner_cases e) [
  | inl none_there ↦ subst IsMap (sym none_there) tt
  | inr one_there ↦ subst IsMap (sym one_there) (tt, tt)
]

restore_persistence-lookup_example : lookup_at 5 11 restored.descriptors ≡ (
    if is_reached packages restoring restarted.db_documents 2 (around 5) 5
    then in_bucket packages restarted 11 (inner 5 buckets)
    else none)
restore_persistence-lookup_example =
    restore_persistence-lookup packages restoring old_database old_database 5 restarted restored
      refl buckets-IsMap refl restored_run 5 11

upload-restored_example :
    (lookup_at 5 11 restored.descriptors ≡ some mix_11)
    ↔ (packages.unmarshal_mix raw_11 ≡ some mix_11)
unfolding is_descriptor_authorized lookup is_reached lookup_at inner
upload-restored_example =
    upload-restored packages restoring old_database old_database 5 restarted restored raw_11 mix_11
      5 voting_state after_upload refl uploaded refl refl refl refl buckets-IsMap refl restored_run
