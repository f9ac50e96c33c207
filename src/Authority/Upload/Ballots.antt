-- ===== src/Authority/Upload/Ballots.antt =====
-- How the stores of votes, commits, reveals and certificates that the uploads fill belong together.
use opt.Base.{
  ℕ, ◌≡◌, inl, inr, some, true, Bytes, lookup, lookup_at, ensure, is_some, arith, lookup_at-ensure,
  lookup_at-store, lookup_at-delete_below, subst, sym,
}
use opt.Base.Outcome.{ok}
use opt.Authority.Types.{Katzenpost, Document}
use opt.Authority.State.{State, sub64}
use opt.Authority.Consensus.{prune_documents}
use opt.Authority.Upload.{
  Upload, Status, on_vote_upload, on_cert_upload, on_reveal_upload, on_sig_upload,
}
use opt.Authority.Upload.Vote.{voter, TakesVote, with_vote, SameVotes, on_vote_upload_exact}
use opt.Authority.Upload.Cert.{certifier, TakesCert, with_cert, SameCerts, on_cert_upload_exact}
use opt.Authority.Upload.Reveal.{
  revealer, TakesReveal, with_reveal, SameReveals, on_reveal_upload_exact,
}

-- A vote is for its epoch and by an authority, and its commit is the one that is stored; a reveal is
-- by an authority that committed; a certificate is by an authority that voted.
pub record Ballots (s : State) : Type 0 where
  pub vote_backed :
      (e q : ℕ) (doc : Document)
      → lookup_at e q s.votes ≡ some doc
      → (doc.epoch ≡ e)
        × (is_some (lookup q s.authorized_authorities) ≡ true)
        × (lookup_at e q s.commits ≡ lookup q doc.shared_random_commit)
        × (is_some (lookup_at e q s.commits) ≡ true)
  pub reveal_backed :
      (e q : ℕ)
      → is_some (lookup_at e q s.reveals) ≡ true
      → (is_some (lookup q s.authorized_authorities) ≡ true)
        × (is_some (lookup_at e q s.commits) ≡ true)
  pub certificate_backed :
      (e q : ℕ)
      → is_some (lookup_at e q s.certificates) ≡ true
      → (is_some (lookup q s.authorized_authorities) ≡ true)
        × (is_some (lookup_at e q s.votes) ≡ true)

-- What can be looked up is the same.
pub record SameBallots (s t : State) : Type 0 where
  pub votes_same : (e q : ℕ) → lookup_at e q t.votes ≡ lookup_at e q s.votes
  pub commits_same : (e q : ℕ) → lookup_at e q t.commits ≡ lookup_at e q s.commits
  pub reveals_same : (e q : ℕ) → lookup_at e q t.reveals ≡ lookup_at e q s.reveals
  pub certificates_same : (e q : ℕ) → lookup_at e q t.certificates ≡ lookup_at e q s.certificates
  pub authorities_same : t.authorized_authorities ≡ s.authorized_authorities

pub SameBallots-Ballots : (s t : State) → SameBallots s t → Ballots s → Ballots t
SameBallots-Ballots s t h b = record {
  vote_backed = λ e q doc l.
      ground
        (arith, h.votes_same e q, h.commits_same e q, h.authorities_same, b.vote_backed e q doc);
  reveal_backed = λ e q l.
      ground
        (arith, h.reveals_same e q, h.commits_same e q, h.authorities_same, b.reveal_backed e q);
  certificate_backed = λ e q l. ground (
    arith,
    h.certificates_same e q,
    h.votes_same e q,
    h.authorities_same,
    b.certificate_backed e q,
  );
}

module _ (k : Katzenpost) (u : Upload) (s : State) (b : Ballots s) where
  voted :
      (doc : Document) (commit : Bytes)
      → TakesVote k u s doc commit
      → Ballots (with_vote k u s doc commit)
  voted doc commit t = record {
    vote_backed = λ e q d l. ground (
      arith,
      b.vote_backed e q d,
      lookup_at-ensure s.voting_epoch e q s.votes,
      lookup_at-ensure s.voting_epoch e q s.commits,
      lookup_at-store s.voting_epoch (voter k u s) e q doc (ensure s.voting_epoch s.votes),
      lookup_at-store s.voting_epoch (voter k u s) e q commit (ensure s.voting_epoch s.commits),
    );
    reveal_backed = λ e q l. ground (
      arith,
      b.reveal_backed e q,
      lookup_at-ensure s.voting_epoch e q s.commits,
      lookup_at-store s.voting_epoch (voter k u s) e q commit (ensure s.voting_epoch s.commits),
    );
    certificate_backed = λ e q l. ground (
      arith,
      b.certificate_backed e q,
      lookup_at-ensure s.voting_epoch e q s.votes,
      lookup_at-store s.voting_epoch (voter k u s) e q doc (ensure s.voting_epoch s.votes),
    );
  }

  certified : (doc : Document) → TakesCert k u s doc → Ballots (with_cert k u s doc)
  certified doc t = record {
    vote_backed = b.vote_backed;
    reveal_backed = b.reveal_backed;
    certificate_backed = λ e q l. ground (
      arith,
      b.certificate_backed e q,
      lookup_at-ensure s.voting_epoch e q s.certificates,
      lookup_at-store s.voting_epoch (certifier k u s) e q doc
          (ensure s.voting_epoch s.certificates),
    );
  }

  revealed : (bytes : Bytes) → TakesReveal k u s bytes → Ballots (with_reveal k u s)
  revealed bytes t = record {
    vote_backed = b.vote_backed;
    reveal_backed = λ e q l. ground (
      arith,
      b.reveal_backed e q,
      lookup_at-ensure s.voting_epoch e q s.reveals,
      lookup_at-store s.voting_epoch (revealer k u s) e q u.payload
          (ensure s.voting_epoch s.reveals),
    );
    certificate_backed = b.certificate_backed;
  }

  refused_vote_same : (t : State) → SameVotes k u s t → SameBallots s t
  refused_vote_same t h = record {
    votes_same = h.votes_kept;
    commits_same = h.commits_kept;
    reveals_same = λ e q. cc (h.rest_kept);
    certificates_same = λ e q. cc (h.rest_kept);
    authorities_same = cc (h.rest_kept);
  }

  refused_cert_same : (t : State) → SameCerts k u s t → SameBallots s t
  refused_cert_same t h = record {
    votes_same = λ e q. cc (h.rest_kept);
    commits_same = λ e q. cc (h.rest_kept);
    reveals_same = λ e q. cc (h.rest_kept);
    certificates_same = h.certificates_kept;
    authorities_same = cc (h.rest_kept);
  }

  refused_reveal_same : (t : State) → SameReveals k u s t → SameBallots s t
  refused_reveal_same t h = record {
    votes_same = λ e q. cc (h.rest_kept);
    commits_same = λ e q. cc (h.rest_kept);
    reveals_same = h.reveals_kept;
    certificates_same = λ e q. cc (h.rest_kept);
    authorities_same = cc (h.rest_kept);
  }

  -- Whatever an authority uploads, the stores still agree.
  pub on_vote_upload-Ballots : Ballots (on_vote_upload k u s).0
  on_vote_upload-Ballots = elim (on_vote_upload_exact k u s) [
    | inl (doc, commit, t, e) ↦
        subst (λ (r : State × Status). Ballots r.0) (sym e) (voted doc commit t)
    | inr (_, _, h) ↦ SameBallots-Ballots s _ (refused_vote_same _ h) b
  ]

  pub on_cert_upload-Ballots : Ballots (on_cert_upload k u s).0
  on_cert_upload-Ballots = elim (on_cert_upload_exact k u s) [
    | inl (doc, t, e) ↦ subst (λ (r : State × Status). Ballots r.0) (sym e) (certified doc t)
    | inr (_, _, h) ↦ SameBallots-Ballots s _ (refused_cert_same _ h) b
  ]

  pub on_reveal_upload-Ballots :
      (t : State) (st : Status) → on_reveal_upload k u s ≡ ok (t, st) → Ballots t
  on_reveal_upload-Ballots t st q = elim (on_reveal_upload_exact k u s t st q) [
    | inl (bytes, h, e, _) ↦ subst Ballots (sym e) (revealed bytes h)
    | inr (_, _, h) ↦ SameBallots-Ballots s t (refused_reveal_same t h) b
  ]

  pub on_sig_upload-Ballots : Ballots (on_sig_upload k u s).0
  unfolding on_sig_upload
  on_sig_upload-Ballots =
      SameBallots-Ballots s _
        (record {
          votes_same = λ e q. ground arith;
          commits_same = λ e q. ground arith;
          reveals_same = λ e q. ground arith;
          certificates_same = λ e q. ground arith;
          authorities_same = ground arith;
        })
        b

-- Pruning drops a vote together with its certificate.
pub prune_documents-Ballots : (now : ℕ) (s : State) → Ballots s → Ballots (prune_documents now s)
unfolding prune_documents
prune_documents-Ballots now s b = record {
  vote_backed = λ e q d l.
      ground (arith, b.vote_backed e q d, lookup_at-delete_below (sub64 now 3) e q s.votes);
  reveal_backed = b.reveal_backed;
  certificate_backed = λ e q l. ground (
    arith,
    b.certificate_backed e q,
    lookup_at-delete_below (sub64 now 3) e q s.votes,
    lookup_at-delete_below (sub64 now 3) e q s.certificates,
  );
}
