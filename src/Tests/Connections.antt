-- ===== src/Tests/Connections.antt =====
-- What an authority and a mix get from a connection.
use opt.Base.{
  ◌≡◌, ◌≢◌, ◌⊎◌, ◌↔◌, refl, [], ◌∷◌, some, none, true, false, lookup, lookup_at, ensure, insert,
  bytes_eq,
}
use opt.Base.Outcome.{ok, panics}
use opt.Authority.Types.{SignedUpload, MixDescriptor}
use opt.Authority.State.{State}
use opt.Authority.Upload.{done}
use opt.Authority.Upload.Vote.{with_vote}
use opt.Authority.Wire.{
  new_authenticator, wire_is_peer_valid, vote, reveal, upload_status, nothing, on_conn, sane_epoch,
  on_post_descriptor, descriptor_ok, PostStatus,
}
use opt.Authority.Wire.Roles.{Role, HasRole, peer, authenticator_of, wire_is_peer_valid_exact}
use opt.Authority.Wire.Reach.{Touches, on_conn-Touches}
use opt.Authority.Wire.Panics.{PanicsOn, on_conn-panics}
use opt.Authority.Wire.Post.{Checked, uploaded, on_post_descriptor_exact}
use opt.Authority.Upload.{on_vote_upload}
use opt.Tests.World.{
  packages, voting_state, voted_state, upload_1, short_upload, doc_5, now_4, period_64,
  authority_peer,
}

wire_is_peer_valid_example :
    ((r : Role) × HasRole voting_state authority_peer r
      × (wire_is_peer_valid voting_state authority_peer new_authenticator
          ≡ (authenticator_of r (peer voting_state authority_peer), true)))
    ⊎ (((wire_is_peer_valid voting_state authority_peer new_authenticator).1 ≡ false)
        × ((r : Role) → ¬ HasRole voting_state authority_peer r))
wire_is_peer_valid_example = wire_is_peer_valid_exact voting_state authority_peer

abbrev after_vote : State
after_vote = with_vote packages upload_1 voting_state doc_5 (77 ∷ [])

vote_run :
    on_conn packages period_64 now_4 authority_peer (vote upload_1) voting_state
    ≡ ok (after_vote, upload_status done)
unfolding on_conn on_vote_upload lookup lookup_at ensure insert bytes_eq
vote_run = refl

on_conn-Touches_example :
    ((r : Role) × HasRole voting_state authority_peer r × Touches r voting_state after_vote)
    ⊎ (((r : Role) → ¬ HasRole voting_state authority_peer r)
        × (after_vote ≡ voting_state)
        × (upload_status done ≡ nothing))
on_conn-Touches_example =
    on_conn-Touches packages period_64 now_4 authority_peer (vote upload_1) voting_state after_vote
      (upload_status done) vote_run

on_conn-panics_example :
    (on_conn packages period_64 now_4 authority_peer (reveal short_upload) voted_state ≡ panics) ↔ (
      (packages.kem_known voted_state.cfg.wire_kem_scheme ≡ false)
      ⊎ ((r : Role) × (wire_is_peer_valid voted_state authority_peer new_authenticator
            ≡ (authenticator_of r (peer voted_state authority_peer), true))
          × PanicsOn packages period_64 now_4 r (reveal short_upload) voted_state))
on_conn-panics_example =
    on_conn-panics packages period_64 now_4 authority_peer (reveal short_upload) voted_state

on_post_descriptor_example :
    ((up : SignedUpload MixDescriptor) × (desc : MixDescriptor) × (sane_epoch now_4 5 ≡ true)
      × (packages.unmarshal_upload (11 ∷ []) ≡ some up)
      × (up.descriptor ≡ some desc)
      × Checked packages period_64 now_4 5 (11 ∷ []) 11 voting_state up desc
      × (on_post_descriptor packages period_64 now_4 5 (11 ∷ []) 11 voting_state
          ≡ ok (uploaded packages period_64 now_4 5 (11 ∷ []) 11 voting_state desc)))
    ⊎ (((up : SignedUpload MixDescriptor) × (sane_epoch now_4 5 ≡ true)
          × (packages.unmarshal_upload (11 ∷ []) ≡ some up)
          × (up.descriptor ≡ none)
          × (on_post_descriptor packages period_64 now_4 5 (11 ∷ []) 11 voting_state ≡ panics))
        ⊎ (((up : SignedUpload MixDescriptor) (desc : MixDescriptor)
              → ¬ (
                  (sane_epoch now_4 5 ≡ true)
                  × (packages.unmarshal_upload (11 ∷ []) ≡ some up)
                  × (up.descriptor ≡ some desc)
                  × Checked packages period_64 now_4 5 (11 ∷ []) 11 voting_state up desc))
            × ((status : PostStatus) × (on_post_descriptor packages period_64 now_4 5
                    (11 ∷ [])
                    11
                    voting_state
                  ≡ ok (voting_state, status))
                × (status ≢ descriptor_ok))))
on_post_descriptor_example =
    on_post_descriptor_exact packages period_64 now_4 5 (11 ∷ []) 11 voting_state
