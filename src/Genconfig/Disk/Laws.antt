-- ===== src/Genconfig/Disk/Laws.antt =====
-- What is read from the files after the calls that write them.
use opt.Base.{
  ◌≡◌, ◌⊎◌, refl, ◌∷◌, ◌++◌, some, true, false, Bytes, bytes_eq, bytes_eq_refl, arith, Option-cases,
  Bool-cases, inl, inr,
}
use opt.Base.Texts.{bytes_of}
use opt.Base.Outcome.{Outcome, ok, err, panics}
use opt.Genconfig.Types.{Tools, Config, Content, toml, public_pem, private_pem, Key}
use opt.Genconfig.Disk.{
  Files, World, M, ◌>>=◌, path_eq, read_file, identifier_of, toml_name, save_cfg, cfg_id_key,
  cfg_link_key, stored_key,
}

-- A chain that succeeds went through a success.
pub >>=-ok_inv :
    {A B : Type 0} (m : M A) (f : A → M B) (w w' : World) (r : B)
    → (m >>= f) w ≡ (ok r, w')
    → (a : A) × (v : World) × (m w ≡ (ok a, v)) × (f a v ≡ (ok r, w'))
>>=-ok_inv {A} {B} m f w w' r h = inverted (m w) h
  where
    inverted :
        (p : Outcome A × World)
        → (elim (p.0) as (λ o. Outcome B × World) [
          | ok a ↦ f a p.1
          | err e ↦ (err e, p.1)
          | panics ↦ (panics, p.1)
        ])
          ≡ (ok r, w')
        → (a : A) × (v : World) × (p ≡ (ok a, v)) × (f a v ≡ (ok r, w'))
    inverted (ok a, v) e = (a, v, refl, e)
    inverted (err x, v) e = cc
    inverted (panics, v) e = cc

path_eq_self : (p : Bytes × Bytes) → path_eq p p ≡ true
unfolding path_eq
path_eq_self (d, f) = ground (arith, bytes_eq_refl d, bytes_eq_refl f)

pub read_file-first :
    (p : Bytes × Bytes) (c : Content) (files : Files) → read_file p ((p, c) ∷ files) ≡ some c
unfolding read_file
read_file-first p c files = ground (arith, path_eq_self p)

-- A file that two writes do not touch.
pub read_file-skip :
    (p p' q : Bytes × Bytes) (c c' : Content) (files : Files)
    → path_eq p q ≡ false
    → path_eq p' q ≡ false
    → read_file q ((p, c) ∷ (p', c') ∷ files) ≡ read_file q files
unfolding read_file
read_file-skip p p' q c c' files e e' = ground arith

pub read_file-skip_one :
    (p q : Bytes × Bytes) (c : Content) (files : Files)
    → path_eq p q ≡ false
    → read_file q ((p, c) ∷ files) ≡ read_file q files
unfolding read_file
read_file-skip_one p q c files e = ground arith

pub path_eq-folder : (d d' f f' : Bytes) → bytes_eq d d' ≡ false → path_eq (d, f) (d', f') ≡ false
unfolding path_eq
path_eq-folder d d' f f' e = ground arith

pub path_eq-file : (d d' f f' : Bytes) → bytes_eq f f' ≡ false → path_eq (d, f) (d', f') ≡ false
unfolding path_eq
path_eq-file d d' f f' e = ground arith

-- What the calls add to the files, where every file can be created.
module _ (t : Tools) (all : (p : Bytes × Bytes) → t.creatable p ≡ true) where
  pub save_cfg-files :
      (cfg : Config) (w w' : World)
      → save_cfg t cfg w ≡ (ok tt, w')
      → w'.files ≡ ((identifier_of t cfg, toml_name t cfg ++ bytes_of ".toml"), toml cfg) ∷ w.files
  unfolding save_cfg
  save_cfg-files cfg w w' h =
      let made = all (identifier_of t cfg, toml_name t cfg ++ bytes_of ".toml") in
      elim (Bool-cases (t.encodes cfg)) [ inl e ↦ ground arith | inr e ↦ absurd (ground arith) ]

  -- New link keys, of which the public one is returned.
  pub cfg_link_key-files :
      (folder scheme : Bytes) (w w' : World) (key : Key)
      → cfg_link_key t folder scheme w ≡ (ok key, w')
      → (private : Key) × (w'.files
          ≡ ((folder, bytes_of "link.public.pem"), public_pem scheme key)
            ∷ ((folder, bytes_of "link.private.pem"), private_pem private)
            ∷ w.files)
  unfolding cfg_link_key
  cfg_link_key-files folder scheme w w' key h =
      let a = all (folder, bytes_of "link.public.pem") in
      let b = all (folder, bytes_of "link.private.pem") in
      elim (Bool-cases (t.kem_known scheme)) [
        | inr e ↦ absurd (ground arith)
        | inl e ↦ elim (Option-cases (t.kem_key scheme w.seed)) [
          | inl n ↦ absurd (ground arith)
          | inr ((public, private), n) ↦ (private, ground arith)
        ]
      ]

  -- The identity key is the one on the disk, or a new one that is written.
  pub cfg_id_key-files :
      (folder name : Bytes) (w w' : World) (key : Key)
      → cfg_id_key t folder name w ≡ (ok key, w')
      → (scheme : Bytes) × (t.sign_by_name name ≡ some scheme)
        × (((w'.files ≡ w.files)
              × (stored_key t scheme (read_file (folder, bytes_of "identity.public.pem") w.files)
                  ≡ some key))
            ⊎ ((private : Key) × (key ≡ (t.sign_key scheme w.seed).0)
                × (w'.files
                    ≡ ((folder, bytes_of "identity.public.pem"), public_pem scheme key)
                      ∷ ((folder, bytes_of "identity.private.pem"), private_pem private)
                      ∷ w.files)))
  unfolding cfg_id_key
  cfg_id_key-files folder name w w' key h =
      let a = all (folder, bytes_of "identity.public.pem") in
      let b = all (folder, bytes_of "identity.private.pem") in
      elim (Option-cases (t.sign_by_name name)) [
        | inl e ↦ absurd (ground arith)
        | inr (scheme, e) ↦
            let stored =
              stored_key t scheme (read_file (folder, bytes_of "identity.public.pem") w.files) in
            elim (Option-cases stored) [
              | inr (k, s) ↦ (scheme, e, inl (ground arith, ground arith))
              | inl s ↦ (scheme, e, inr ((t.sign_key scheme w.seed).1, ground arith, ground arith))
            ]
      ]
