-- ===== src/Genconfig/Disk.antt =====
-- The files of a run, the chain of calls that read and write them, and the keys of a node or an
-- authority: saveCfg, saveFileContents, identifier, toml_name, cfgIdKey and cfgLinkKey.
pub mod Laws
use opt.Base.{
  ℕ, String, ◌+◌, List, [], ◌∷◌, ◌++◌, Option, none, some, Bool, true, false, ◌&&◌, Bytes, bytes_eq,
  if◌then◌else◌,
}
use opt.Base.Texts.{bytes_of}
use opt.Base.Outcome.{Outcome, ok, err, panics}
use opt.Genconfig.Types.{
  Tools, Config, client, client2, node, authority, Content, toml, text, public_pem, private_pem,
  Key, NodeConfig, AuthorityConfig,
}

abbrev pub Files : Type 0
Files = List ((Bytes × Bytes) × Content)

unfoldable pub path_eq : Bytes × Bytes → Bytes × Bytes → Bool
path_eq (d, f) (d', f') = bytes_eq d d' && bytes_eq f f'

-- The last write to a file counts.
unfoldable pub read_file : Bytes × Bytes → Files → Option Content
unfolding path_eq
read_file p [] = none
read_file p ((q, c) ∷ files) = if path_eq q p then some c else read_file p files

pub record World : Type 0 where
  pub files : Files
  pub seed : ℕ

-- What a call comes back with, and the files and the seed after it.
abbrev pub M : Type 0 → Type 0
M A = World → Outcome A × World

infixl 5 ◌>>=◌ ◌>>◌
abbrev pub ◌>>=◌ : {A B : Type 0} → M A → (A → M B) → M B
◌>>=◌ m f w =
    let (r, w') = m w in elim r [ ok a ↦ f a w' | err e ↦ (err e, w') | panics ↦ (panics, w') ]

abbrev pub ◌>>◌ : {A B : Type 0} → M A → M B → M B
m >> k = m >>= λ _. k

abbrev pub pure : {A : Type 0} → A → M A
pure a w = (ok a, w)

abbrev pub fail : {A : Type 0} → String → M A
fail e w = (err e, w)

abbrev pub crash : {A : Type 0} → M A
crash w = (panics, w)

-- The seed of the next key.
abbrev pub fresh : M ℕ
fresh w = (ok w.seed, record w { seed = w.seed + 1 })

module _ (t : Tools) where
  -- Writes a file if it can be created, and tells whether.
  unfoldable pub write : Bytes × Bytes → Content → M Bool
  write p c w =
      if t.creatable p then (ok true, record w { files = (p, c) ∷ w.files }) else (ok false, w)

  unfoldable pub identifier_of : Config → Bytes
  identifier_of (client c) = bytes_of "client"
  identifier_of (client2 c) = bytes_of "client2"
  identifier_of (node c) = c.identifier
  identifier_of (authority c) = c.identifier

  unfoldable pub toml_name : Config → Bytes
  toml_name (client c) = bytes_of "client"
  toml_name (client2 c) = bytes_of "client"
  toml_name (node c) = bytes_of "katzenpost"
  toml_name (authority c) = bytes_of "authority"

  -- A configuration that cannot be encoded leaves what was written of it.
  unfoldable pub save_cfg : Config → M (Unit {0})
  unfolding write identifier_of toml_name
  save_cfg cfg = do
    created ← write (identifier_of cfg, toml_name cfg ++ bytes_of ".toml") (toml cfg)
    if created
        then (if t.encodes cfg then pure tt else fail "toml encoding failed")
        else fail "os.Create failed"

  unfoldable pub save_file_contents : Bytes × Bytes → Bytes → M Bool
  unfolding write
  save_file_contents p contents = write p (text contents)

  abbrev pub stored_key : Bytes → Option Content → Option Key
  stored_key scheme none = none
  stored_key scheme (some c) = t.read_public scheme c

  -- The public identity key in the folder, or a new pair that is written there. That a file cannot be
  -- written goes unnoticed.
  unfoldable pub cfg_id_key : Bytes → Bytes → M Key
  unfolding write read_file
  cfg_id_key folder scheme_name w = elim (t.sign_by_name scheme_name) [
    | none ↦ (panics, w)
    | some scheme ↦
        elim (stored_key scheme (read_file (folder, bytes_of "identity.public.pem") w.files)) [
          | some key ↦ (ok key, w)
          | none ↦
              (do
                seed ← fresh
                let (public, private) = t.sign_key scheme seed
                write (folder, bytes_of "identity.private.pem") (private_pem private)
                write (folder, bytes_of "identity.public.pem") (public_pem scheme public)
                pure public)
                w
        ]
  ]

  -- A new pair of link keys, whatever keys there are. A scheme that is not known is nil, and is
  -- called; a file that cannot be written is a panic.
  unfoldable pub cfg_link_key : Bytes → Bytes → M Key
  unfolding write
  cfg_link_key folder scheme =
      if t.kem_known scheme
      then (do
        seed ← fresh
        elim (t.kem_key scheme seed) [
          | none ↦ crash
          | some (public, private) ↦ do
            saved ← write (folder, bytes_of "link.private.pem") (private_pem private)
            if saved
                then (do
                  saved' ← write (folder, bytes_of "link.public.pem") (public_pem scheme public)
                  if saved' then pure public else crash)
                else crash
        ])
      else crash
