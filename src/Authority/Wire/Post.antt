-- ===== src/Authority/Wire/Post.antt =====
-- onPostDescriptor: what a node must send to have a descriptor taken.
use opt.Base.{
  ℕ, ◌≡◌, ◌≢◌, ◌⊎◌, inl, inr, some, none, Bytes, true, arith, Option-cases, Bool-cases, ◌==◌, subst,
  sym, ◌∙◌, some-inj, ap,
}
use opt.Base.Outcome.{ok, panics}
use opt.Authority.Types.{Katzenpost, MixDescriptor, SignedUpload}
use opt.Authority.State.{State}
use opt.Authority.Consensus.{Now}
use opt.Authority.Descriptor.{is_descriptor_authorized, on_descriptor_upload}
use opt.Authority.Wire.{
  sane_epoch, PostStatus, descriptor_ok, descriptor_forbidden, descriptor_invalid,
  on_post_descriptor, accept_descriptor, status_of,
}

module _ (k : Katzenpost) (period : ℕ) (now : Now) (epoch : ℕ) (payload : Bytes) (peer : ℕ)
    (s : State) where
  -- The node posts its own descriptor, under a key that parses and signs it, and is on the lists.
  pub record Checked (up : SignedUpload MixDescriptor) (desc : MixDescriptor) : Type 0 where
    pub own : k.sum256 desc.identity_key ≡ peer
    pub key_parses : k.is_public_key desc.identity_key ≡ true
    pub signed : k.verify_upload up desc.identity_key ≡ true
    pub listed : is_descriptor_authorized k desc s ≡ true

  -- What onDescriptorUpload leaves, and the status that tells of its error.
  abbrev pub uploaded : MixDescriptor → State × PostStatus
  uploaded desc =
      let r = on_descriptor_upload k payload desc epoch s in (r.0, status_of k period now r.1)

  accept_descriptor_exact :
      (up : SignedUpload MixDescriptor) (desc : MixDescriptor)
      → (Checked up desc
          × (accept_descriptor k period now epoch payload peer up desc s ≡ uploaded desc))
        ⊎ ((¬ Checked up desc)
            × (accept_descriptor k period now epoch payload peer up desc s
                ≡ (s, descriptor_forbidden)))
  unfolding accept_descriptor
  accept_descriptor_exact up desc = elim (Bool-cases (k.sum256 desc.identity_key == peer)) [
    | inr e ↦ inr ((λ c. ground (arith, c.own)), ground arith)
    | inl e ↦ elim (Bool-cases (k.is_public_key desc.identity_key)) [
      | inr e' ↦ inr ((λ c. cc (c.key_parses)), ground arith)
      | inl e' ↦ elim (Bool-cases (k.verify_upload up desc.identity_key)) [
        | inr e'' ↦ inr ((λ c. cc (c.signed)), ground arith)
        | inl e'' ↦ elim (Bool-cases (is_descriptor_authorized k desc s)) [
          | inr q ↦ inr ((λ c. cc (c.listed)), ground arith)
          | inl q ↦ inl (
            record { own = ground arith; key_parses = e'; signed = e''; listed = q },
            ground arith,
          )
        ]
      ]
    ]
  ]

  -- A node's descriptor that is posted for the current epoch or one next to it, parses and passes every check is
  -- handed to the handler of uploads, whose effect and error are those of the post. An upload that
  -- parses without a descriptor panics. Any other is refused and changes nothing.
  pub on_post_descriptor_exact :
      ((up : SignedUpload MixDescriptor) × (desc : MixDescriptor) × (sane_epoch now epoch ≡ true)
        × (k.unmarshal_upload payload ≡ some up)
        × (up.descriptor ≡ some desc)
        × Checked up desc
        × (on_post_descriptor k period now epoch payload peer s ≡ ok (uploaded desc)))
      ⊎ (((up : SignedUpload MixDescriptor) × (sane_epoch now epoch ≡ true)
            × (k.unmarshal_upload payload ≡ some up)
            × (up.descriptor ≡ none)
            × (on_post_descriptor k period now epoch payload peer s ≡ panics))
          ⊎ (((up : SignedUpload MixDescriptor) (desc : MixDescriptor)
                → ¬ (
                    (sane_epoch now epoch ≡ true)
                    × (k.unmarshal_upload payload ≡ some up)
                    × (up.descriptor ≡ some desc)
                    × Checked up desc))
              × ((status : PostStatus) × (on_post_descriptor k period now epoch payload peer s
                    ≡ ok (s, status))
                  × (status ≢ descriptor_ok))))
  unfolding on_post_descriptor
  on_post_descriptor_exact = elim (Bool-cases (sane_epoch now epoch)) [
    | inr z ↦ inr (inr ((λ up desc (a, b, d, c). cc), (descriptor_invalid, ground arith, λ h. cc)))
    | inl z ↦ elim (Option-cases (k.unmarshal_upload payload)) [
      | inl e ↦
          inr (inr ((λ up desc (a, b, d, c). cc), (descriptor_invalid, ground arith, λ h. cc)))
      | inr (up, e) ↦ elim (Option-cases up.descriptor) [
        | inl n ↦ inr (inl (up, z, e, n, ground arith))
        | inr (desc, n) ↦ elim (accept_descriptor_exact up desc) [
          | inl (c, q) ↦ inl (up, desc, z, e, n, c, ground arith)
          | inr (c, q) ↦ inr (
              inr (
                (λ up' desc' (a, b, d, c').
                    let same : up' ≡ up = some-inj (sym b ∙ e) in
                    let same' : desc' ≡ desc =
                      some-inj
                        (sym d ∙ ap (λ (u : SignedUpload MixDescriptor). u.descriptor) same ∙ n) in
                    c (subst (λ u. Checked u desc) same (subst (λ x. Checked up' x) same' c'))),
                (descriptor_forbidden, ground arith, λ h. cc),
              ))
        ]
      ]
    ]
  ]
