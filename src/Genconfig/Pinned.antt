-- ===== src/Genconfig/Pinned.antt =====
-- The keys of the gateways that genClient2Cfg pins, against the files: the link keys of a node are made
-- when it is configured and once more when it is pinned.
use opt.Base.{
  ◌≡◌, sym, ap, ◌∙◌, subst, List, [], ◌∷◌, Bool, true, false, Bytes, bytes_eq, if◌then◌else◌,
  Bool-cases, inl, inr, All,
}
use opt.Base.Texts.{bytes_of}
use opt.Base.Outcome.{Outcome, ok-inj, ok}
use opt.Genconfig.Types.{Tools, ReadsOwn, Key, Katzenpost, NodeConfig, PinnedGateway}
use opt.Genconfig.Disk.{Files, World, ◌>>=◌, pure, read_file, stored_key, cfg_id_key, cfg_link_key}
use opt.Genconfig.Disk.Laws.{>>=-ok_inv}
use opt.Genconfig.Run.{pin_gateway, pin_gateways}
use opt.Genconfig.OnDisk.{OnDisk, keys-OnDisk, keys-elsewhere}

-- No two nodes have a folder in common.
abbrev pub Apart : List NodeConfig → Type 0
Apart [] = Unit
Apart (c ∷ cs) = All (λ d. bytes_eq d.identifier c.identifier ≡ false) cs × Apart cs

module _ (t : Tools) (all : (p : Bytes × Bytes) → t.creatable p ≡ true) (reads : ReadsOwn t) where
  -- A gateway that is pinned: its keys, and the files.
  pin_gateway-keys :
      (s : Katzenpost) (c : NodeConfig) (w w' : World) (g : PinnedGateway)
      → pin_gateway t s c w ≡ (ok g, w')
      → (v : World) × (cfg_id_key t c.identifier c.pki_signature_scheme w ≡ (ok g.identity_key, v))
        × (cfg_link_key t c.identifier s.wire_kem_scheme v ≡ (ok g.link_key, w'))
        × (g.name ≡ c.identifier)
  unfolding pin_gateway
  pin_gateway-keys s c w w' g h =
      let pinned : Key → Key → PinnedGateway = λ identity link. record {
        pki_signature_scheme = s.pki_signature_scheme;
        wire_kem_scheme = s.wire_kem_scheme;
        name = c.identifier;
        identity_key = identity;
        link_key = link;
        addresses = c.addresses;
      } in
      let (identity, v, hi, h1) =
        >>=-ok_inv (cfg_id_key t c.identifier c.pki_signature_scheme)
          (λ identity.
            cfg_link_key t c.identifier s.wire_kem_scheme >>= λ link. pure (pinned identity link))
          w w' g h in
      let (link, x, hl, h2) =
        >>=-ok_inv (cfg_link_key t c.identifier s.wire_kem_scheme)
          (λ link. pure (pinned identity link)) v w' g h1 in
      done identity link v x hi hl h2
    where
      done :
          (identity link : Key) (v x : World)
          → cfg_id_key t c.identifier c.pki_signature_scheme w ≡ (ok identity, v)
          → cfg_link_key t c.identifier s.wire_kem_scheme v ≡ (ok link, x)
          → ◌≡◌ {A = Outcome PinnedGateway × World}
              (
                ok record {
                  pki_signature_scheme = s.pki_signature_scheme;
                  wire_kem_scheme = s.wire_kem_scheme;
                  name = c.identifier;
                  identity_key = identity;
                  link_key = link;
                  addresses = c.addresses;
                },
                x,
              )
              (ok g, w')
          → (v : World) × (cfg_id_key t c.identifier c.pki_signature_scheme w
              ≡ (ok g.identity_key, v))
            × (cfg_link_key t c.identifier s.wire_kem_scheme v ≡ (ok g.link_key, w'))
            × (g.name ≡ c.identifier)
      done identity link v x hi hl e =
          let world : x ≡ w' = ap (λ (r : Outcome PinnedGateway × World). r.1) e in
          let made = ok-inj (ap (λ (r : Outcome PinnedGateway × World). r.0) e) in
          (
            v,
            hi ∙ ap (λ (p : PinnedGateway). (ok p.identity_key, v)) made,
            hl
                ∙ ap (λ (p : PinnedGateway). (ok p.link_key, x)) made
                ∙ ap (λ y. (ok g.link_key, y)) world,
            sym (ap (λ (p : PinnedGateway). p.name) made),
          )

  pin_gateways_step :
      (s : Katzenpost) (c : NodeConfig) (cs : List NodeConfig) (w w' : World)
      (gs : List PinnedGateway)
      → c.gateway ≡ true
      → pin_gateways t s (c ∷ cs) w ≡ (ok gs, w')
      → (g : PinnedGateway) × (v : World) × (others : List PinnedGateway) × (pin_gateway t s c w
          ≡ (ok g, v))
        × (pin_gateways t s cs v ≡ (ok others, w'))
        × (gs ≡ g ∷ others)
  unfolding pin_gateways
  pin_gateways_step s c cs w w' gs yes' h =
      let (g, v, hg, h1) =
        >>=-ok_inv (pin_gateway t s c) (λ g. pin_gateways t s cs >>= λ others. pure (g ∷ others)) w
          w' gs (opened c.gateway yes' h) in
      let (others, x, ho, h2) =
        >>=-ok_inv (pin_gateways t s cs) (λ others. pure (g ∷ others)) v w' gs h1 in
      let world : x ≡ w' = ap (λ (r : Outcome (List PinnedGateway) × World). r.1) h2 in
      let made : g ∷ others ≡ gs =
        ok-inj (ap (λ (r : Outcome (List PinnedGateway) × World). r.0) h2) in
      (g, v, others, hg, ho ∙ ap (λ y. (ok others, y)) world, sym made)
    where
      opened :
          (b : Bool)
          → b ≡ true
          → (if b
                then pin_gateway t s c
                  >>= (λ g. pin_gateways t s cs >>= λ others. pure (g ∷ others))
                else pin_gateways t s cs)
              w
            ≡ (ok gs, w')
          → (pin_gateway t s c >>= (λ g. pin_gateways t s cs >>= λ others. pure (g ∷ others))) w
            ≡ (ok gs, w')
      opened true e h = h
      opened false e h = cc

  pub pin_gateways-elsewhere :
      (s : Katzenpost) (cs : List NodeConfig) (other file : Bytes) (w w' : World)
      (gs : List PinnedGateway)
      → pin_gateways t s cs w ≡ (ok gs, w')
      → All (λ c. bytes_eq c.identifier other ≡ false) cs
      → read_file (other, file) w'.files ≡ read_file (other, file) w.files
  unfolding pin_gateways
  pin_gateways-elsewhere s [] other file w w' gs h a =
      ap (λ (r : Outcome (List PinnedGateway) × World). read_file (other, file) r.1.files) (sym h)
  pin_gateways-elsewhere s (c ∷ cs) other file w w' gs h a = elim (Bool-cases c.gateway) [
    | inr no_gateway ↦ pin_gateways-elsewhere s cs other file w w' gs (rw no_gateway at h) a.1
    | inl is_gateway ↦
        let (g, v, others, hg, ho, made) = pin_gateways_step s c cs w w' gs is_gateway h in
        let (u, hi, hl, named) = pin_gateway-keys s c w v g hg in
        pin_gateways-elsewhere s cs other file v w' others ho a.1
        ∙ keys-elsewhere t all reads c.identifier other c.pki_signature_scheme s.wire_kem_scheme
            file w u v g.identity_key g.link_key hi hl a.0
  ]

  pub later-OnDisk :
      (files files' : Files) (folder : Bytes) (identity link : Key)
      → ((file : Bytes) → read_file (folder, file) files' ≡ read_file (folder, file) files)
      → OnDisk t files folder identity link
      → OnDisk t files' folder identity link
  later-OnDisk files files' folder identity link same d = record {
    scheme = d.scheme;
    kem = d.kem;
    identity_there =
        ap (stored_key t d.scheme) (same (bytes_of "identity.public.pem")) ∙ d.identity_there;
    link_there = same (bytes_of "link.public.pem") ∙ d.link_there;
  }

  -- Where every file can be created and a public identity key that was made is read back, by its own
  -- scheme, from the file written of it: after the gateways
  -- of a list of nodes, no two of which share a folder, are pinned, the identity key and the link key
  -- that each is pinned with lie in its folder.
  pub pin_gateways-OnDisk :
      (s : Katzenpost) (cs : List NodeConfig) (w w' : World) (gs : List PinnedGateway)
      → Apart cs
      → pin_gateways t s cs w ≡ (ok gs, w')
      → All (λ g. OnDisk t w'.files g.name g.identity_key g.link_key) gs
  unfolding pin_gateways
  pin_gateways-OnDisk s [] w w' gs a h =
      subst (All (λ g. OnDisk t w'.files g.name g.identity_key g.link_key))
        (ok-inj (ap (λ (r : Outcome (List PinnedGateway) × World). r.0) h)) tt
  pin_gateways-OnDisk s (c ∷ cs) w w' gs a h = elim (Bool-cases c.gateway) [
    | inr no_gateway ↦ pin_gateways-OnDisk s cs w w' gs a.1 (rw no_gateway at h)
    | inl is_gateway ↦
        let (g, v, others, hg, ho, made) = pin_gateways_step s c cs w w' gs is_gateway h in
        let (u, hi, hl, named) = pin_gateway-keys s c w v g hg in
        let keys =
          keys-OnDisk t all reads c.identifier c.pki_signature_scheme s.wire_kem_scheme w u v
            g.identity_key g.link_key hi hl in
        let kept =
          later-OnDisk v.files w'.files c.identifier g.identity_key g.link_key
            (λ file. pin_gateways-elsewhere s cs c.identifier file v w' others ho a.0) keys in
        subst (All (λ g. OnDisk t w'.files g.name g.identity_key g.link_key)) (sym made) (
          subst (λ n. OnDisk t w'.files n g.identity_key g.link_key) (sym named) kept,
          pin_gateways-OnDisk s cs v w' others a.1 ho,
        )
  ]
