-- ===== src/Tests/World.antt =====
-- A small authority: the other packages' functions, the appchain, three nodes, two authorities and
-- their messages, for the concrete runs.
use opt.Base.{ℕ, [], ◌∷◌, ◌++◌, none, some, Bool, true, false, Bytes, replicate}
use opt.Authority.Types.{Katzenpost, MixDescriptor, ReplicaDescriptor, Parameters, Document}
use opt.Authority.State.{State, Config, accept_desc, bootstrap}
use opt.Authority.Topology.Shuffle.{range}
use opt.Authority.Upload.{Upload}
use opt.Authority.Consensus.{Now}
use opt.Authority.Wire.{PeerCredentials}
use opt.Authority.Chain.{ChainBridge, no_error}

abbrev pub rates : Parameters
rates = record {
  send_rate_per_minute = 100;
  mu = 1;
  mu_max_delay = 90;
  lambda_p = 1;
  lambda_p_max_delay = 30;
  lambda_l = 1;
  lambda_l_max_delay = 30;
  lambda_d = 1;
  lambda_d_max_delay = 30;
  lambda_m = 1;
  lambda_m_max_delay = 30;
  lambda_g_max_delay = 30;
}

-- A mix, or another kind of node by the two flags, with a key of one byte.
abbrev pub node_of : ℕ → Bool → Bool → MixDescriptor
node_of key gateway service = record {
  name = "node";
  identity_key = key ∷ [];
  is_gateway_node = gateway;
  is_service_node = service;
  rest = [];
}

abbrev pub mix_11 : MixDescriptor
mix_11 = node_of 11 false false

abbrev pub mix_12 : MixDescriptor
mix_12 = node_of 12 false false

abbrev pub mix_13 : MixDescriptor
mix_13 = node_of 13 false false

abbrev pub gateway_14 : MixDescriptor
gateway_14 = node_of 14 true false

abbrev pub replica_21 : ReplicaDescriptor
replica_21 = record { name = "replica"; identity_key = 21 ∷ []; rest = [] }

-- The document of epoch 5, with the commit of the authority 1.
abbrev pub doc_5 : Document
doc_5 = record {
  epoch = 5;
  genesis_epoch = 1;
  version = "v0";
  parameters = rates;
  lambda_g = 0;
  topology = (mix_11 ∷ []) ∷ (mix_12 ∷ []) ∷ [];
  gateway_nodes = [];
  service_nodes = [];
  storage_replicas = [];
  shared_random_value = 9 ∷ [];
  prior_shared_random = [];
  shared_random_commit = (1, 77 ∷ []) ∷ [];
  shared_random_reveal = [];
  signatures = [];
  sphinx_geometry_hash = [];
  pki_signature_scheme = "ed25519";
}

abbrev pub doc_4 : Document
doc_4 = record doc_5 { epoch = 4 }

abbrev head_or_zero : Bytes → ℕ
head_or_zero [] = 0
head_or_zero (x ∷ _) = x

-- Hashes are first bytes, every signature verifies, and shuffles leave the order.
abbrev pub packages : Katzenpost
packages = record {
  sum256 = head_or_zero;
  verify = λ key payload. some payload;
  parse_document = λ payload. some doc_5;
  marshal_certificate = λ doc. some (doc.epoch ∷ []);
  sign_document = λ doc. some doc;
  is_well_formed = λ doc. true;
  unmarshal_signature = λ bytes. some bytes;
  marshal_mix = λ d. some d.identity_key;
  unmarshal_mix = λ bytes. some (node_of (head_or_zero bytes) false false);
  marshal_replica = λ d. some d.identity_key;
  unmarshal_upload = λ bytes. some (record { descriptor = some mix_11; signature = bytes });
  unmarshal_replica_upload =
      λ bytes. some (record { descriptor = some replica_21; signature = bytes });
  kem_known = λ name. true;
  is_public_key = λ key. true;
  verify_upload = λ up key. true;
  verify_replica_upload = λ up key. true;
  geometry_hash = 3 ∷ [];
  document_version = "v0";
  seed_ok = λ srv. true;
  perm = λ srv sizes n. range n;
  sum_of_lambdas = λ params. 3;
  n_log_n = λ n. n;
}

abbrev pub settings : Config
settings = record {
  parameters = rates;
  layers = 2;
  min_nodes_per_layer = 1;
  topology = none;
  pki_signature_scheme = "ed25519";
  wire_kem_scheme = "Xwing";
}

-- An authority that has just started.
abbrev pub started_state : State
started_state = record {
  cfg = settings;
  reverse_hash = [];
  authorized_mixes = (11, true) ∷ [];
  authorized_gateway_nodes = [];
  authorized_service_nodes = [];
  authorized_replica_nodes = (21, "replica") ∷ [];
  authorized_authorities = (1, true) ∷ (2, true) ∷ [];
  authority_link_keys = (1, 5 ∷ []) ∷ [];
  documents = [];
  myconsensus = [];
  descriptors = [];
  replica_descriptors = [];
  db_documents = [];
  db_descriptors = [];
  db_replica_descriptors = [];
  votes = [];
  certificates = [];
  signatures = [];
  reveals = [];
  commits = [];
  prior_srv = [];
  voting_epoch = 0;
  genesis_epoch = 0;
  threshold = 2;
  phase = bootstrap;
  authorized_key = 11 ∷ [];
}

-- One that collects for epoch 5, with the document of epoch 4.
abbrev pub voting_state : State
voting_state = record started_state {
  documents = (4, doc_4) ∷ [];
  voting_epoch = 5;
  phase = accept_desc;
}

-- The same after the vote of the authority 1.
abbrev pub voted_state : State
voted_state = record voting_state {
  votes = (5, (1, doc_5) ∷ []) ∷ [];
  commits = (5, (1, 77 ∷ []) ∷ []) ∷ [];
}

-- What authority 1 sends in epoch 5; the bytes spell the epoch.
abbrev pub upload_1 : Upload
upload_1 = record { epoch = 5; public_key = 1 ∷ []; payload = 0 ∷ 0 ∷ 0 ∷ 0 ∷ 0 ∷ 0 ∷ 0 ∷ 5 ∷ [] }

abbrev pub short_upload : Upload
short_upload = record upload_1 { payload = 5 ∷ [] }

-- Nanoseconds, so that the deadlines are small.
abbrev pub period_64 : ℕ
period_64 = 64

abbrev pub now_4 : Now
now_4 = record { epoch = 4; elapsed = 10; till = 54 }

abbrev hash_bytes : ℕ → Bytes
hash_bytes n = replicate 31 0 ++ n ∷ []

abbrev pub authority_peer : PeerCredentials
authority_peer = record { additional_data = hash_bytes 1; public_key = some (5 ∷ []) }

-- The appchain answers every command with one byte and the count 1.
abbrev pub appchain : ChainBridge ℕ Bytes
appchain = record {
  command = λ c payload w. (w, some (11 ∷ []));
  response_error = λ r. no_error;
  data_uint = λ r. (1, none);
  data_bytes = λ r. some r;
  data_node = λ r. none;
  unmarshal_document = λ r. some doc_5;
  marshal_document = λ d. some [];
}
