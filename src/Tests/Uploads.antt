-- ===== src/Tests/Uploads.antt =====
-- Votes, reveals, certificates and signatures of the authority 1.
use opt.Base.{
  ◌≡◌, ◌≢◌, ◌⊎◌, ◌↔◌, ◌<◌, refl, some, true, Bytes, length, lookup, lookup_at, ensure, insert,
  is_some,
}
use opt.Base.Outcome.{ok, panics}
use opt.Authority.Types.{Document, Signature}
use opt.Authority.Upload.{done, on_vote_upload, on_cert_upload, on_reveal_upload, on_sig_upload}
use opt.Authority.Upload.Vote.{TakesVote, with_vote, SameVotes, on_vote_upload_exact}
use opt.Authority.Upload.Cert.{TakesCert, with_cert, SameCerts, on_cert_upload_exact}
use opt.Authority.Upload.Reveal.{
  TakesReveal, with_reveal, SameReveals, revealer, on_reveal_upload_exact, on_reveal_upload-panics,
}
use opt.Authority.Upload.Sig.{TakesSig, with_sig, SameSigs, on_sig_upload_exact}
use opt.Tests.World.{packages, voting_state, voted_state, upload_1, short_upload}

on_vote_upload_example :
    ((doc : Document) × (commit : Bytes) × TakesVote packages upload_1 voting_state doc commit
      × (on_vote_upload packages upload_1 voting_state
          ≡ (with_vote packages upload_1 voting_state doc commit, done)))
    ⊎ (((on_vote_upload packages upload_1 voting_state).1 ≢ done)
        × ((doc : Document) (commit : Bytes)
            → ¬ TakesVote packages upload_1 voting_state doc commit)
        × SameVotes packages upload_1 voting_state
            (on_vote_upload packages upload_1 voting_state).0)
on_vote_upload_example = on_vote_upload_exact packages upload_1 voting_state

on_cert_upload_example :
    ((doc : Document) × TakesCert packages upload_1 voted_state doc
      × (on_cert_upload packages upload_1 voted_state
          ≡ (with_cert packages upload_1 voted_state doc, done)))
    ⊎ (((on_cert_upload packages upload_1 voted_state).1 ≢ done)
        × ((doc : Document) → ¬ TakesCert packages upload_1 voted_state doc)
        × SameCerts packages upload_1 voted_state (on_cert_upload packages upload_1 voted_state).0)
on_cert_upload_example = on_cert_upload_exact packages upload_1 voted_state

reveal_run :
    on_reveal_upload packages upload_1 voted_state
    ≡ ok (with_reveal packages upload_1 voted_state, done)
unfolding on_reveal_upload lookup lookup_at ensure insert
reveal_run = refl

on_reveal_upload_example :
    ((certified : Bytes) × TakesReveal packages upload_1 voted_state certified
      × (with_reveal packages upload_1 voted_state ≡ with_reveal packages upload_1 voted_state)
      × (done ≡ done))
    ⊎ ((done ≢ done)
        × ((certified : Bytes) → ¬ TakesReveal packages upload_1 voted_state certified)
        × SameReveals packages upload_1 voted_state (with_reveal packages upload_1 voted_state))
on_reveal_upload_example =
    on_reveal_upload_exact packages upload_1 voted_state (with_reveal packages upload_1 voted_state)
      done reveal_run

on_reveal_upload-panics_example : (on_reveal_upload packages short_upload voted_state ≡ panics) ↔ (
    (is_some
        (lookup (revealer packages short_upload voted_state) voted_state.authorized_authorities)
      ≡ true)
    × ((certified : Bytes) × (packages.verify short_upload.public_key short_upload.payload
          ≡ some certified)
        × (length certified < 8)))
on_reveal_upload-panics_example = on_reveal_upload-panics packages short_upload voted_state

on_sig_upload_example :
    ((verified : Bytes) × (csig : Signature) × TakesSig packages upload_1 voted_state verified csig
      × (on_sig_upload packages upload_1 voted_state
          ≡ (with_sig packages upload_1 voted_state csig, done)))
    ⊎ (((on_sig_upload packages upload_1 voted_state).1 ≢ done)
        × ((verified : Bytes) (csig : Signature)
            → ¬ TakesSig packages upload_1 voted_state verified csig)
        × SameSigs packages upload_1 voted_state (on_sig_upload packages upload_1 voted_state).0)
on_sig_upload_example = on_sig_upload_exact packages upload_1 voted_state
