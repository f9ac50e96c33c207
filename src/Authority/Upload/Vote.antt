-- ===== src/Authority/Upload/Vote.antt =====
-- onVoteUpload: which votes are taken, and what a vote changes.
use opt.Base.{
  ℕ, ◌≡◌, ◌≢◌, ◌⊎◌, inl, inr, some, none, true, Bytes, lookup, lookup_at, ensure, store, is_some,
  arith, lookup_at-ensure, Option-cases, ap,
}
use opt.Authority.Types.{Katzenpost, Document}
use opt.Authority.State.{State}
use opt.Authority.Upload.{Upload, Status, done, done_cases, on_vote_upload}

module _ (k : Katzenpost) (vote : Upload) (s : State) where
  abbrev pub voter : ℕ
  voter = k.sum256 vote.public_key

  -- The peer is known, votes for the epoch at hand and has not voted yet, and its key signs a
  -- document of that epoch that holds its own commit.
  pub record TakesVote (doc : Document) (commit : Bytes) : Type 0 where
    pub authorized : is_some (lookup voter s.authorized_authorities) ≡ true
    pub in_epoch : vote.epoch ≡ s.voting_epoch
    pub first : lookup_at s.voting_epoch voter s.votes ≡ none
    pub signed : is_some (k.verify vote.public_key vote.payload) ≡ true
    pub parses : k.parse_document vote.payload ≡ some doc
    pub doc_epoch : doc.epoch ≡ s.voting_epoch
    pub commits_to : lookup voter doc.shared_random_commit ≡ some commit

  -- The document and the commit are stored under the voter's hash.
  abbrev pub with_vote : Document → Bytes → State
  with_vote doc commit = record s {
    votes = store s.voting_epoch voter doc (ensure s.voting_epoch s.votes);
    commits = store s.voting_epoch voter commit (ensure s.voting_epoch s.commits);
  }

  -- Nothing that can be looked up has changed.
  pub record SameVotes (s' : State) : Type 0 where
    pub votes_kept : (j q : ℕ) → lookup_at j q s'.votes ≡ lookup_at j q s.votes
    pub commits_kept : (j q : ℕ) → lookup_at j q s'.commits ≡ lookup_at j q s.commits
    pub rest_kept : s' ≡ record s { votes = s'.votes; commits = s'.commits }

  same_voter :
      lookup_at s.voting_epoch voter (ensure s.voting_epoch s.votes)
      ≡ lookup_at s.voting_epoch voter s.votes
  same_voter = lookup_at-ensure s.voting_epoch s.voting_epoch voter s.votes

  TakesVote-of_done :
      (on_vote_upload k vote s).1 ≡ done
      → (doc : Document) × (commit : Bytes) × TakesVote doc commit
  unfolding on_vote_upload
  TakesVote-of_done h = elim (Option-cases (k.parse_document vote.payload)) [
    | inl e ↦ absurd (ground (arith, same_voter))
    | inr (doc, e) ↦ elim (Option-cases (lookup voter doc.shared_random_commit)) [
      | inl e' ↦ absurd (ground (arith, same_voter))
      | inr (commit, e') ↦ (doc, commit, ground (arith, same_voter))
    ]
  ]

  -- A vote that has what it needs is taken: the status is VoteOk, the document and the commit are
  -- stored under the peer's hash in the voting epoch, and nothing else changes.
  pub TakesVote-done :
      (doc : Document) (commit : Bytes)
      → TakesVote doc commit
      → on_vote_upload k vote s ≡ (with_vote doc commit, done)
  unfolding on_vote_upload
  TakesVote-done doc commit t = ground (arith, same_voter)

  refused_vote : (on_vote_upload k vote s).1 ≢ done → SameVotes (on_vote_upload k vote s).0
  unfolding on_vote_upload
  refused_vote h = record {
    votes_kept = λ j q. ground (arith, lookup_at-ensure s.voting_epoch j q s.votes);
    commits_kept = λ j q. ground (arith, lookup_at-ensure s.voting_epoch j q s.commits);
    rest_kept = ground arith;
  }

  -- A vote either has all that it needs, and then the status is VoteOk and exactly its document and
  -- its commit are stored; or it lacks something, and then another status is answered and every
  -- stored vote and commit, and all else, stays.
  pub on_vote_upload_exact :
      ((doc : Document) × (commit : Bytes) × TakesVote doc commit
        × (on_vote_upload k vote s ≡ (with_vote doc commit, done)))
      ⊎ (((on_vote_upload k vote s).1 ≢ done)
          × ((doc : Document) (commit : Bytes) → ¬ TakesVote doc commit)
          × SameVotes (on_vote_upload k vote s).0)
  on_vote_upload_exact = elim (done_cases (on_vote_upload k vote s).1) [
    | inl e ↦
        let (doc, commit, t) = TakesVote-of_done e in
        inl (doc, commit, t, TakesVote-done doc commit t)
    | inr e ↦ inr (
      e,
      (λ doc commit t. e (ap (λ (r : State × Status). r.1) (TakesVote-done doc commit t))),
      refused_vote e,
    )
  ]
