-- ===== src/Authority/Types.antt =====
-- The records that the authority exchanges and stores, with the fields that pki/server reads or
-- sets, and the interface to the code that it calls and does not hold: katzenpost and hpqc.
-- A public key is the list of its marshalled bytes, a 32-byte hash the number that it spells, and
-- a float64 its bit pattern.
use opt.Base.{ℕ, String, List, Option, Bytes, Map, Bool}

abbrev pub Float64 : Type 0
Float64 = ℕ

pub record MixDescriptor : Type 0 where
  pub name : String
  pub identity_key : Bytes
  pub is_gateway_node : Bool
  pub is_service_node : Bool
  pub rest : Bytes  -- what the code only passes on

pub record ReplicaDescriptor : Type 0 where
  pub name : String
  pub identity_key : Bytes
  pub rest : Bytes

pub record Parameters : Type 0 where
  pub send_rate_per_minute : ℕ
  pub mu : Float64
  pub mu_max_delay : ℕ
  pub lambda_p : Float64
  pub lambda_p_max_delay : ℕ
  pub lambda_l : Float64
  pub lambda_l_max_delay : ℕ
  pub lambda_d : Float64
  pub lambda_d_max_delay : ℕ
  pub lambda_m : Float64
  pub lambda_m_max_delay : ℕ
  pub lambda_g_max_delay : ℕ

abbrev pub Signature : Type 0
Signature = Bytes

pub record Document : Type 0 where
  pub epoch : ℕ
  pub genesis_epoch : ℕ
  pub version : String
  pub parameters : Parameters
  pub lambda_g : Float64
  pub topology : List (List MixDescriptor)
  pub gateway_nodes : List MixDescriptor
  pub service_nodes : List MixDescriptor
  pub storage_replicas : List ReplicaDescriptor
  pub shared_random_value : Bytes
  pub prior_shared_random : List Bytes
  pub shared_random_commit : Map Bytes
  pub shared_random_reveal : Map Bytes
  pub signatures : Map Signature
  pub sphinx_geometry_hash : Bytes
  pub pki_signature_scheme : String

-- pki.SignedUpload and pki.SignedReplicaUpload: a pointer to a descriptor, which may be nil, and a
-- signature over it.
pub record SignedUpload (D : Type 0) : Type 0 where
  pub descriptor : Option D
  pub signature : Bytes

-- The calls into other packages. `Option` is a Go error, a failed parse or a failed verification.
pub record Katzenpost : Type 0 where
  pub sum256 : Bytes → ℕ  -- hash.Sum256, hash.Sum256From
  pub verify : Bytes → Bytes → Option Bytes  -- cert.Verify: key, certificate
  pub parse_document : Bytes → Option Document  -- pki.ParseDocument
  pub marshal_certificate : Document → Option Bytes  -- Document.MarshalCertificate
  pub sign_document : Document → Option Document  -- pki.SignDocument with the server's key
  pub is_well_formed : Document → Bool  -- pki.IsDocumentWellFormed(doc, nil)
  pub unmarshal_signature : Bytes → Option Signature  -- cert.Signature.Unmarshal
  pub marshal_mix : MixDescriptor → Option Bytes  -- MixDescriptor.MarshalBinary
  pub unmarshal_mix : Bytes → Option MixDescriptor  -- MixDescriptor.UnmarshalBinary
  pub marshal_replica : ReplicaDescriptor → Option Bytes  -- ReplicaDescriptor.Marshal
  pub unmarshal_upload : Bytes → Option (SignedUpload MixDescriptor)
  pub unmarshal_replica_upload : Bytes → Option (SignedUpload ReplicaDescriptor)
  pub kem_known : String → Bool  -- schemes.ByName is not nil
  -- UnmarshalBinaryPublicKey of the configured signature scheme succeeds
  pub is_public_key : Bytes → Bool
  pub verify_upload : SignedUpload MixDescriptor → Bytes → Bool  -- SignedUpload.Verify
  pub verify_replica_upload : SignedUpload ReplicaDescriptor → Bytes → Bool
  pub geometry_hash : Bytes  -- geo.Geometry.Hash
  pub document_version : String  -- pki.DocumentVersion
  pub seed_ok : Bytes → Bool  -- rand.NewDeterministicRandReader(srv) returns no error
  -- rand.NewDeterministicRandReader(srv).Perm(n), after calls of Perm at the sizes of the list
  pub perm : Bytes → List ℕ → ℕ → List ℕ
  -- cfg.Parameters.LambdaP + LambdaL + LambdaD, and n * math.Log(n), in float64
  pub sum_of_lambdas : Parameters → Float64
  pub n_log_n : ℕ → Float64
