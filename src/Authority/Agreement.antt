-- ===== src/Authority/Agreement.antt =====
-- pki/server/state.go: the shared random value, the certificate and the consensus of the protocol
-- without an appchain.
pub mod EpochBytes
pub mod OwnCommit
pub mod Consensus
use opt.Base.{
  bytes_less, ℕ, zero, suc, ◌*◌, ◌/◌, ◌%◌, ◌^◌, ◌+◌, List, [], ◌∷◌, ◌++◌, Option, none, some, Bool,
  true, false, not, Bytes, Map, lookup, lookup_at, inner, insert, ensure, store, is_some, length,
  replicate, ltb, ◌==◌, if◌then◌else◌,
}
use opt.Base.Outcome.{Outcome, ok, err, panics, ◌>>=◌, or_err, or_panic}
use opt.Authority.Types.{Katzenpost, Document, Signature}
use opt.Authority.State.{State, sub64}
use opt.Authority.Document.{get_document}
use opt.Authority.Tally.{Encodings, Tallied, tally_votes}
use opt.Authority.Commits.{SharedRandom, verify_commits}

-- The number in so many bytes, the most significant first.
abbrev pub to_bytes : ℕ → ℕ → Bytes
to_bytes zero n = []
to_bytes (suc width) n = to_bytes width (n / 256) ++ n % 256 ∷ []

unfoldable pub epoch_to_bytes : ℕ → Bytes
epoch_to_bytes e = to_bytes 8 e

-- By falling digests; sort.Slice leaves the order of equal ones open.
abbrev pub insert_reveal : ℕ × Bytes → List (ℕ × Bytes) → List (ℕ × Bytes)
insert_reveal r [] = r ∷ []
insert_reveal r (q ∷ qs) =
    let rest = insert_reveal r qs in if bytes_less r.1 q.1 then q ∷ rest else r ∷ q ∷ qs

abbrev pub sort_reveals : List (ℕ × Bytes) → List (ℕ × Bytes)
sort_reveals [] = []
sort_reveals (r ∷ rs) = insert_reveal r (sort_reveals rs)

-- "shared-random"
abbrev label : Bytes
label = 115 ∷ 104 ∷ 97 ∷ 114 ∷ 101 ∷ 100 ∷ 45 ∷ 114 ∷ 97 ∷ 110 ∷ 100 ∷ 111 ∷ 109 ∷ []

-- What these functions call of other packages, next to the records of the tally and the commits.
pub record Consensual : Type 0 where
  pub get_certified : Bytes → Option Bytes  -- cert.GetCertified
  pub blake2b_256 : Bytes → Bytes
  pub week_of_epochs : ℕ
  pub is_well_formed_for : Document → Bool  -- IsDocumentWellFormed with the verifiers
  pub own_key_hash : ℕ  -- identityPubKeyHash
  pub add_signature : Bytes → Signature → Document → Document  -- AddSignature; an error leaves it
  pub verify_threshold : ℕ → Bytes → Bool  -- VerifyThreshold with the verifiers
  pub commit : ℕ → Option (Bytes × Bytes)  -- SharedRandom.Commit and Reveal: commit, reveal
  pub sign : Bytes → ℕ → Option Bytes  -- cert.Sign with the server's key, for an epoch

-- A call that may fail, and what is done with its value; a failure leaves the state.
abbrev pub then_with :
    {A B : Type 0} → State → Outcome A → (A → State × Outcome B) → State × Outcome B
then_with s (ok a) f = f a
then_with s (Outcome.err e) f = (s, err e)
then_with s Outcome.panics f = (s, panics)

abbrev key_or_nil : Option Bytes → Bytes
key_or_nil none = []
key_or_nil (some key) = key

module _ (k : Katzenpost) (enc : Encodings) (sr : SharedRandom) (cs : Consensual) where
  unfoldable pub digests_of : Map Bytes → Outcome (List (ℕ × Bytes))
  digests_of [] = ok []
  digests_of ((pk, reveal) ∷ m) = do
    digest ← or_err "certified" (cs.get_certified reveal)
    rest ← digests_of m
    ok ((pk, digest) ∷ rest)

  abbrev pub written : List (ℕ × Bytes) → Bytes
  written [] = []
  written ((pk, digest) ∷ rs) = to_bytes 32 pk ++ (digest ++ written rs)

  -- The value of the epoch before, or zeros.
  abbrev prior_value : State → Bytes
  prior_value s = elim (lookup (sub64 s.voting_epoch 1) s.documents) [
    | none ↦ replicate 32 0
    | some d ↦ d.shared_random_value
  ]

  unfoldable pub compute_shared_random : ℕ → Map Bytes → Map Bytes → State → Outcome Bytes
  unfolding digests_of epoch_to_bytes
  compute_shared_random epoch commits reveals s =
      if ltb (length commits) s.threshold then err "commits" else (do
        digests ← digests_of reveals
        ok (
            cs.blake2b_256 (
              label
              ++ (epoch_to_bytes epoch ++ (written (sort_reveals digests) ++ prior_value s)))))

  abbrev rotated : Bytes → List Bytes → Outcome (List Bytes)
  rotated srv [] = panics
  rotated srv (prior ∷ _) = ok (srv ∷ prior ∷ [])

  -- `s.priorSRV[0]` panics where there is none.
  unfoldable pub rotate_srv : ℕ → Bytes → State → Outcome State
  rotate_srv epoch srv s =
      if epoch == s.genesis_epoch
      then ok (record s { prior_srv = srv ∷ srv ∷ [] })
      else if epoch % cs.week_of_epochs == 0
      then (do prior ← rotated srv s.prior_srv; ok (record s { prior_srv = prior }))
      else ok s

  -- The document of what the votes agree on, signed.
  unfoldable pub own_document : ℕ → Bytes → State → Outcome Document
  own_document epoch srv s = do
    t ← tally_votes k enc epoch s
    doc ← get_document k s t.nodes t.replica_nodes t.params.0 srv
    or_err "sign" (k.sign_document doc)

  abbrev pub save_consensus : ℕ → State → Document → State × Outcome Document
  save_consensus epoch s signed =
      (record s { myconsensus = insert epoch signed s.myconsensus }, ok signed)

  -- What follows the shared random value in getMyConsensus.
  unfoldable pub consensus_of_one : ℕ → Bytes → State → State × Outcome Document
  unfolding own_document
  consensus_of_one epoch srv s = then_with s (own_document epoch srv s) (save_consensus epoch s)

  -- After the test for a threshold of certificates; the panic is "ShouldNotBePossible".
  unfoldable pub agree : ℕ → Map Bytes → Map Bytes → State → State × Outcome Document
  unfolding compute_shared_random rotate_srv consensus_of_one
  agree epoch commits reveals s =
      if ltb (length commits) s.threshold
      then (s, err "too few commits")
      else if not (length commits == length reveals)
      then (s, panics)
      else then_with s (compute_shared_random epoch commits reveals s)
          (λ srv. then_with s (rotate_srv epoch srv s) (λ s'. consensus_of_one epoch srv s'))

  unfoldable pub get_my_consensus : ℕ → State → State × Outcome Document
  unfolding agree
  get_my_consensus epoch s = elim (lookup epoch s.certificates) [
    | none ↦ (s, err "no certificates")
    | some certificates ↦
        if ltb (length certificates) s.threshold
        then (s, err "too few certificates")
        else let (commits, reveals) = verify_commits k sr s.reverse_hash epoch certificates in
          agree epoch commits reveals s
  ]

  -- Without a prior value the current one, which is zero here, is taken twice.
  abbrev rotate_prior : ℕ → Bytes → List Bytes → List Bytes
  rotate_prior epoch srv [] = srv ∷ srv ∷ []
  rotate_prior epoch srv (prior ∷ priors) =
      if epoch % cs.week_of_epochs == 0 then srv ∷ prior ∷ [] else prior ∷ priors

  abbrev zero_srv : Bytes
  zero_srv = replicate 32 0

  -- What follows the signature in getCertificate.
  unfoldable pub save_own_certificate : ℕ → Document → State → State × Outcome Document
  save_own_certificate epoch signed s =
      if cs.is_well_formed_for signed
      then (let s' = record s { certificates = ensure epoch s.certificates } in
          if is_some (lookup_at epoch cs.own_key_hash s'.certificates)
          then (s', err "already present")
          else (
            record s' { certificates = store epoch cs.own_key_hash signed s'.certificates },
            ok signed,
          ))
      else (s, err "not well-formed")

  unfoldable pub get_certificate : ℕ → State → State × Outcome Document
  unfolding save_own_certificate
  get_certificate epoch s =
      then_with s
        (do
          t ← tally_votes k enc epoch s
          get_document k s t.nodes t.replica_nodes t.params.0 zero_srv)
        (λ doc.
          let certificate = record doc {
            shared_random_commit = inner epoch s.commits;
            shared_random_reveal = inner epoch s.reveals;
          } in
          let s' = record s { prior_srv = rotate_prior epoch zero_srv s.prior_srv } in
          then_with s' (or_err "sign" (k.sign_document certificate))
            (λ signed. save_own_certificate epoch signed s'))

  -- The key of a signer that is not known is nil.
  unfoldable pub add_signatures : Map Bytes → Map Signature → Document → Document
  add_signatures reverse_hash [] doc = doc
  add_signatures reverse_hash ((pk, signature) ∷ m) doc =
      add_signatures reverse_hash m
        (cs.add_signature (key_or_nil (lookup pk reverse_hash)) signature doc)

  -- persistDocument; that the database fails ends the process.
  unfoldable pub persist_document : ℕ → Bytes → Map Bytes → Map Bytes
  persist_document epoch raw documents = insert epoch raw documents

  -- The document of myconsensus is changed where it is stored, also where the threshold is not met.
  unfoldable pub get_threshold_consensus : ℕ → State → State × Outcome Document
  unfolding add_signatures persist_document
  get_threshold_consensus epoch s = elim (lookup epoch s.myconsensus) [
    | none ↦ (s, err "no view of consensus")
    | some ours ↦
        let signed = add_signatures s.reverse_hash (inner epoch s.signatures) ours in
        let s' = record s { myconsensus = insert epoch signed s.myconsensus } in
        elim (k.marshal_certificate signed) [
          | none ↦ (s', err "marshal")
          | some raw ↦
              if cs.verify_threshold s.threshold raw
              then (
                record s' {
                  db_documents = persist_document epoch raw s'.db_documents;
                  documents = insert epoch signed s'.documents;
                },
                ok signed,
              )
              else (s', err "no consensus")
        ]
  ]
