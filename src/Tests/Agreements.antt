-- ===== src/Tests/Agreements.antt =====
-- A consensus of one authority.
use opt.Base.{
  ℕ, ◌≤◌, ◌≡◌, ◌≢◌, ◌⊎◌, ◌++◌, refl, arith, List, [], ◌∷◌, some, true, Map, lookup, insert, length,
  bytes_eq,
}
use opt.Base.Outcome.{ok}
use opt.Authority.Types.{Document}
use opt.Authority.State.{State}
use opt.Authority.Topology.{sort_nodes_by_public_key}
use opt.Authority.Topology.Sort.{sort_by}
use opt.Authority.Document.{get_document}
use opt.Authority.Topology.{generate_fixed_topology}
use opt.Authority.Descriptor.{is_descriptor_authorized}
use opt.Authority.Upload.{epoch_from_bytes}
use opt.Authority.Tally.{tally_votes}
use opt.Authority.Commits.{SharedRandom, verify_commits}
use opt.Authority.Commits.Verified.{Paired, verify_commits-Paired}
use opt.Authority.Agreement.{Consensual, epoch_to_bytes, get_my_consensus, get_threshold_consensus}
use opt.Authority.Agreement.EpochBytes.{epoch_from_bytes-epoch_to_bytes}
use opt.Authority.Agreement.Consensus.{
  signed_by_all, get_threshold_consensus_exact, get_my_consensus_ok,
}
use opt.Tests.World.{packages, rates, mix_11, doc_5}
use opt.Tests.Tallies.{encodings, fixed_state}

abbrev pub random : SharedRandom
random = record { get_epoch = λ commit. 5; verify_reveal = λ commit reveal. true }

abbrev pub agreement : Consensual
agreement = record {
  get_certified = λ reveal. some reveal;
  blake2b_256 = λ bytes. 7 ∷ [];
  week_of_epochs = 7;
  is_well_formed_for = λ doc. true;
  own_key_hash = 1;
  add_signature = λ v signature doc. doc;
  verify_threshold = λ threshold raw. true;
  commit = λ epoch. some (77 ∷ [], 78 ∷ []);
  sign = λ value epoch. some value;
}

abbrev certified_5 : Document
certified_5 = record doc_5 { shared_random_reveal = (1, 78 ∷ []) ∷ [] }

abbrev pub certified_state : State
certified_state = record fixed_state {
  reverse_hash = (1, 6 ∷ []) ∷ [];
  certificates = (5, (1, certified_5) ∷ []) ∷ [];
}

verify_commits_example :
    Paired packages random certified_state.reverse_hash 5
      (verify_commits packages random certified_state.reverse_hash 5 ((1, certified_5) ∷ [])).0
      (verify_commits packages random certified_state.reverse_hash 5 ((1, certified_5) ∷ [])).1
    × (length
          (verify_commits packages random certified_state.reverse_hash 5 ((1, certified_5) ∷ [])).0
        ≡ length
            (verify_commits packages random certified_state.reverse_hash 5
              ((1, certified_5) ∷ [])).1)
verify_commits_example =
    verify_commits-Paired packages random certified_state.reverse_hash 5 ((1, certified_5) ∷ [])

epoch_bytes_example : epoch_from_bytes (epoch_to_bytes 258 ++ 9 ∷ []) ≡ 258
epoch_bytes_example = epoch_from_bytes-epoch_to_bytes 258 (9 ∷ []) (omega arith)

abbrev agreed_5 : Document
agreed_5 = record {
  epoch = 5;
  genesis_epoch = 0;
  version = "";
  parameters = rates;
  lambda_g = 0;
  topology = (mix_11 ∷ []) ∷ [];
  gateway_nodes = [];
  service_nodes = [];
  storage_replicas = [];
  shared_random_value = 7 ∷ [];
  prior_shared_random = (7 ∷ []) ∷ [];
  shared_random_commit = [];
  shared_random_reveal = [];
  signatures = [];
  sphinx_geometry_hash = 3 ∷ [];
  pki_signature_scheme = "ed25519";
}

consensus_run :
    (get_my_consensus packages encodings random agreement 5 certified_state).1 ≡ ok agreed_5
unfolding get_my_consensus tally_votes verify_commits get_document generate_fixed_topology lookup
    insert bytes_eq sort_nodes_by_public_key sort_by is_descriptor_authorized
consensus_run = refl

get_my_consensus_example :
    (certificates : Map Document) × (lookup 5 certified_state.certificates ≡ some certificates)
    × (1 ≤ length certificates)
    × (1 ≤ length (verify_commits packages random certified_state.reverse_hash 5 certificates).0)
    × (length (verify_commits packages random certified_state.reverse_hash 5 certificates).0
        ≡ length (verify_commits packages random certified_state.reverse_hash 5 certificates).1)
    × Paired packages random certified_state.reverse_hash 5
        (verify_commits packages random certified_state.reverse_hash 5 certificates).0
        (verify_commits packages random certified_state.reverse_hash 5 certificates).1
    × (lookup 5
          (get_my_consensus packages encodings random agreement 5 certified_state).0.myconsensus
        ≡ some agreed_5)
get_my_consensus_example =
    get_my_consensus_ok packages encodings random agreement 5 certified_state agreed_5 consensus_run

abbrev pub viewed_state : State
viewed_state = record certified_state { myconsensus = (5, doc_5) ∷ [] }

get_threshold_consensus_example :
    ((ours : Document) × (raw : List ℕ) × (lookup 5 viewed_state.myconsensus ≡ some ours)
      × (packages.marshal_certificate
            (signed_by_all packages encodings random agreement 5 viewed_state ours)
          ≡ some raw)
      × (agreement.verify_threshold 1 raw ≡ true)
      × ((get_threshold_consensus packages encodings random agreement 5 viewed_state).1
          ≡ ok (signed_by_all packages encodings random agreement 5 viewed_state ours))
      × ((get_threshold_consensus packages encodings random agreement 5 viewed_state).0.documents
          ≡ insert 5
              (signed_by_all packages encodings random agreement 5 viewed_state ours)
              viewed_state.documents)
      × ((get_threshold_consensus packages encodings random agreement 5 viewed_state).0.db_documents
          ≡ insert 5 raw viewed_state.db_documents))
    ⊎ (((doc : Document)
          → (get_threshold_consensus packages encodings random agreement 5 viewed_state).1 ≢ ok doc)
        × ((ours : Document) (raw : List ℕ)
            → ¬ (
                (lookup 5 viewed_state.myconsensus ≡ some ours)
                × (packages.marshal_certificate
                      (signed_by_all packages encodings random agreement 5 viewed_state ours)
                    ≡ some raw)
                × (agreement.verify_threshold 1 raw ≡ true)))
        × ((get_threshold_consensus packages encodings random agreement 5 viewed_state).0.documents
            ≡ viewed_state.documents)
        × ((get_threshold_consensus packages encodings random agreement 5
              viewed_state).0.db_documents
            ≡ viewed_state.db_documents))
get_threshold_consensus_example =
    get_threshold_consensus_exact packages encodings random agreement 5 viewed_state
