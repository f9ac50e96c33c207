-- ===== src/Genconfig/OnDisk.antt =====
-- The keys of cfgIdKey and cfgLinkKey in the files of their folder (genconfig/genconfig.go).
use opt.Base.{sym, ◌≡◌, refl, ap, ◌∙◌, some, true, false, Bytes, bytes_eq, inl, inr}
use opt.Base.Texts.{bytes_of}
use opt.Base.Outcome.{ok}
use opt.Genconfig.Types.{Tools, ReadsOwn, public_pem, private_pem, Key}
use opt.Genconfig.Disk.{Files, World, read_file, stored_key, cfg_id_key, cfg_link_key}
use opt.Genconfig.Disk.Laws.{
  read_file-first, read_file-skip, path_eq-folder, path_eq-file, cfg_id_key-files,
  cfg_link_key-files,
}

abbrev identity_file : Bytes → Bytes × Bytes
identity_file folder = (folder, bytes_of "identity.public.pem")

abbrev link_file : Bytes → Bytes × Bytes
link_file folder = (folder, bytes_of "link.public.pem")

-- The keys lie in the public key files of the folder.
pub record OnDisk (t : Tools) (files : Files) (folder : Bytes) (identity link : Key) : Type 0 where
  pub scheme : Bytes
  pub identity_there :
      stored_key t scheme (read_file (folder, bytes_of "identity.public.pem") files) ≡ some identity
  pub kem : Bytes
  pub link_there : read_file (folder, bytes_of "link.public.pem") files ≡ some (public_pem kem link)

module _ (t : Tools) (all : (p : Bytes × Bytes) → t.creatable p ≡ true) (reads : ReadsOwn t) where
  -- Keys for a folder lie there,
  pub keys-OnDisk :
      (folder name kem : Bytes) (w v w' : World) (identity link : Key)
      → cfg_id_key t folder name w ≡ (ok identity, v)
      → cfg_link_key t folder kem v ≡ (ok link, w')
      → OnDisk t w'.files folder identity link
  unfolding bytes_eq
  keys-OnDisk folder name kem w v w' identity link hi hl =
      let (private, fl) = cfg_link_key-files t all folder kem v w' link hl in
      let (scheme, known, fi) = cfg_id_key-files t all folder name w v identity hi in
      let past : read_file (identity_file folder) w'.files
          ≡ read_file (identity_file folder) v.files =
        ap (read_file (identity_file folder)) fl
        ∙ read_file-skip (link_file folder) (folder, bytes_of "link.private.pem")
            (identity_file folder) _ _ v.files
            (path_eq-file folder folder (bytes_of "link.public.pem")
              (bytes_of "identity.public.pem") refl)
            (path_eq-file folder folder (bytes_of "link.private.pem")
              (bytes_of "identity.public.pem") refl) in
      record {
        scheme = scheme;
        kem = kem;
        identity_there = elim fi [
          | inl (kept, stored) ↦
              ap (stored_key t scheme) (past ∙ ap (read_file (identity_file folder)) kept) ∙ stored
          | inr (private', own, fi') ↦
              ap (stored_key t scheme) (
                past
                ∙ ap (read_file (identity_file folder)) fi'
                ∙ read_file-first (identity_file folder) (public_pem scheme identity) _)
              ∙ ap (λ key. t.read_public scheme (public_pem scheme key)) own
              ∙ reads name scheme w.seed known
              ∙ ap some (sym own)
        ];
        link_there =
            ap (read_file (link_file folder)) fl
            ∙ read_file-first (link_file folder) (public_pem kem link) _;
      }

  -- and the files of another folder stay.
  pub keys-elsewhere :
      (folder other name kem : Bytes) (file : Bytes) (w v w' : World) (identity link : Key)
      → cfg_id_key t folder name w ≡ (ok identity, v)
      → cfg_link_key t folder kem v ≡ (ok link, w')
      → bytes_eq folder other ≡ false
      → read_file (other, file) w'.files ≡ read_file (other, file) w.files
  keys-elsewhere folder other name kem file w v w' identity link hi hl apart =
      let (private, fl) = cfg_link_key-files t all folder kem v w' link hl in
      let (scheme, known, fi) = cfg_id_key-files t all folder name w v identity hi in
      let past =
        read_file-skip (link_file folder) (folder, bytes_of "link.private.pem") (other, file)
          (public_pem kem link) (private_pem private) v.files
          (path_eq-folder folder other (bytes_of "link.public.pem") file apart)
          (path_eq-folder folder other (bytes_of "link.private.pem") file apart) in
      ap (read_file (other, file)) fl ∙ past ∙ elim fi [
        | inl (kept, stored) ↦ ap (read_file (other, file)) kept
        | inr (private', _, fi') ↦
            ap (read_file (other, file)) fi'
            ∙ read_file-skip (identity_file folder) (folder, bytes_of "identity.private.pem")
                (other, file) (public_pem scheme identity) (private_pem private') w.files
                (path_eq-folder folder other (bytes_of "identity.public.pem") file apart)
                (path_eq-folder folder other (bytes_of "identity.private.pem") file apart)
      ]
