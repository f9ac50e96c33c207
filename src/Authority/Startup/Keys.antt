-- ===== src/Authority/Startup/Keys.antt =====
-- The keys of a server: the part of New of pki/server/server.go that reads or makes them.
use opt.Base.{◌≡◌, Option, none, some, Bool, true, Bytes, if◌then◌else◌, arith}
use opt.Base.Outcome.{Outcome, ok, err, panics, ◌>>=◌, or_err}

-- A pair of PEM files, the private one first, each with its content if it exists.
abbrev pub PemPair : Type 0
PemPair = Option Bytes × Option Bytes

pub record KeyFiles : Type 0 where
  pub identity : PemPair
  pub link : PemPair

-- A scheme of hpqc and its PEM files: what a file of a key holds, and how it is read.
pub record Scheme : Type 0 where
  pub make_key : Option (Bytes × Bytes)  -- a private and a public key
  pub to_pem : Bytes → Bytes
  pub from_private_pem : Bytes → Option Bytes
  pub from_public_pem : Bytes → Option Bytes
  pub writes_private : Bool  -- the private file can be written
  pub writes_public : Bool

-- FromPrivatePEMFile and FromPublicPEMFile, both of which must succeed.
unfoldable pub read_pair : Scheme → Bytes → Bytes → Outcome (Bytes × Bytes)
read_pair s private public = do
  private_key ← or_err "private key file" (s.from_private_pem private)
  public_key ← or_err "public key file" (s.from_public_pem public)
  ok (private_key, public_key)

-- GenerateKey and the two files, the private one first. A write that fails is an error, and leaves
-- what was written before.
unfoldable pub make_pair : Scheme → PemPair → PemPair × Outcome (Bytes × Bytes)
make_pair s files = elim s.make_key [
  | none ↦ (files, err "key generation failed")
  | some (private, public) ↦
      if s.writes_private
      then (if s.writes_public
          then ((some (s.to_pem private), some (s.to_pem public)), ok (private, public))
          else ((some (s.to_pem private), files.1), err "public key file not written"))
      else (files, err "private key file not written")
]

-- The identity keys: read if both files exist, made if neither does.
unfoldable pub identity_keys : Scheme → PemPair → PemPair × Outcome (Bytes × Bytes)
unfolding read_pair make_pair
identity_keys s (some private, some public) =
    ((some private, some public), read_pair s private public)
identity_keys s (none, none) = make_pair s (none, none)
identity_keys s files = (files, err "must either both exist or not exist")

-- The link key. The branch that makes the keys declares a variable of its own by the name of the
-- outer one, which stays nil.
unfoldable pub link_keys : Scheme → PemPair → PemPair × Outcome (Option Bytes)
unfolding read_pair make_pair
link_keys s (some private, some public) =
    ((some private, some public), (do pair ← read_pair s private public; ok (some pair.0)))
link_keys s (none, none) =
    let (files, made) = make_pair s (none, none) in (files, (do pair ← made; ok none))
link_keys s files = (files, panics)

-- s.linkKey.Public(): a method of a nil interface panics.
abbrev pub use_link_key : Option Bytes → Outcome Bytes
use_link_key none = panics
use_link_key (some key) = ok key

-- From the initialization of the identity key to the use of the link key: the identity public key
-- and the link private key. `kem` is none where the KEM scheme is not in the registry.
unfoldable pub server_keys : Scheme → Option Scheme → KeyFiles → KeyFiles × Outcome (Bytes × Bytes)
unfolding identity_keys link_keys
server_keys sign kem files =
    let (identity, ids) = identity_keys sign files.identity in
    elim ids [
      | err e ↦ (record files { identity = identity }, err e)
      | panics ↦ (record files { identity = identity }, panics)
      | ok pair ↦ elim kem [
        | none ↦ (record files { identity = identity }, err "KEM scheme not found in registry")
        | some k ↦
            let (link, made) = link_keys k files.link in
            (
              record { identity = identity; link = link },
              (do key ← made; private ← use_link_key key; ok (pair.1, private)),
            )
      ]
    ]

-- A key is read back from the file that was written of it.
pub record ReadsBack (s : Scheme) (private public : Bytes) : Type 0 where
  pub generates : s.make_key ≡ some (private, public)
  pub can_write : s.writes_private ≡ true
  pub can_write_public : s.writes_public ≡ true
  pub private_back : s.from_private_pem (s.to_pem private) ≡ some private
  pub public_back : s.from_public_pem (s.to_pem public) ≡ some public

-- A server without key files, whose keys can be made, written and read back, panics on its first
-- start, after it has written all four files; on the second start it comes up with these keys.
pub server_keys-first_start :
    (sign kem : Scheme) (sk pk lsk lpk : Bytes)
    → ReadsBack sign sk pk
    → ReadsBack kem lsk lpk
    → let first =
        server_keys sign (some kem) record { identity = (none, none); link = (none, none) } in
      (first.1 ≡ panics)
      × (first.0 ≡ record {
        identity = (some (sign.to_pem sk), some (sign.to_pem pk));
        link = (some (kem.to_pem lsk), some (kem.to_pem lpk));
      })
      × ((server_keys sign (some kem) first.0).1 ≡ ok (pk, lsk))
unfolding server_keys
server_keys-first_start sign kem sk pk lsk lpk a b = (
  ground (
    arith, a.generates, a.can_write, a.can_write_public, b.generates, b.can_write,
    b.can_write_public,
  ),
  ground (
    arith, a.generates, a.can_write, a.can_write_public, b.generates, b.can_write,
    b.can_write_public,
  ),
  ground (
    arith, a.generates, a.can_write, a.private_back, a.public_back, b.generates, b.can_write,
    b.private_back, b.public_back,
  ),
)
