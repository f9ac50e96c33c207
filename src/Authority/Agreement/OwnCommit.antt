-- ===== src/Authority/Agreement/OwnCommit.antt =====
-- doCommit and reveal of pki/server/state.go, against verifyCommits.
use opt.Base.{
  ℕ, ◌≡◌, Option, some, true, Bytes, lookup, lookup_at, store, lookup_at-store, ensure, arith,
  Option-cases, inl, inr, [], ◌∷◌, Map, insert, ==_self,
}
use opt.Base.Outcome.{Outcome, ok, ◌>>=◌, or_err}
use opt.Authority.Types.{Katzenpost, Document}
use opt.Authority.State.{State}
use opt.Authority.Commits.{SharedRandom, verify_commits}
use opt.Authority.Commits.Verified.{Fits}
use opt.Authority.Agreement.{Consensual, then_with}

module _ (cs : Consensual) where
  -- Both are signed before either is saved.
  unfoldable pub do_commit : ℕ → State → State × Outcome Bytes
  do_commit epoch s =
      then_with {A = Bytes × Bytes} s
        (do
          pair ← or_err "commit" (cs.commit epoch)
          commit ← or_err "sign" (cs.sign pair.0 epoch)
          reveal ← or_err "sign" (cs.sign pair.1 epoch)
          ok (commit, reveal))
        (λ signed. (
          record s {
            commits = store epoch cs.own_key_hash signed.0 (ensure epoch s.commits);
            reveals = store epoch cs.own_key_hash signed.1 (ensure epoch s.reveals);
          },
          ok signed.0,
        ))

  -- A missing reveal is a fatal error of the server.
  unfoldable pub reveal : ℕ → State → Option Bytes
  reveal epoch s = lookup_at epoch cs.own_key_hash s.reveals

module _ (k : Katzenpost) (sr : SharedRandom) (cs : Consensual) where
  -- The node's entries in a certificate that carries its commit and its reveal, and nothing else.
  abbrev pub certificate_of : Document → Bytes → Bytes → Document
  certificate_of d signed revealed = record d {
    shared_random_commit = (cs.own_key_hash, signed) ∷ [];
    shared_random_reveal = (cs.own_key_hash, revealed) ∷ [];
  }

  -- What fits is accepted.
  Fits-verify_commits :
      (reverse_hash : Map Bytes) (epoch : ℕ) (signed revealed : Bytes) (d : Document)
      → Fits k sr reverse_hash epoch cs.own_key_hash signed revealed
      → verify_commits k sr reverse_hash epoch
          ((cs.own_key_hash, certificate_of d signed revealed) ∷ [])
        ≡ ((cs.own_key_hash, signed) ∷ [], (cs.own_key_hash, revealed) ∷ [])
  unfolding verify_commits lookup insert
  Fits-verify_commits reverse_hash epoch signed revealed d f = ground (
    arith,
    ==_self cs.own_key_hash,
    f.known,
    f.commit_signed,
    f.reveal_signed,
    f.in_epoch,
    f.reveal_fits,
  )

  -- Where doCommit succeeds, the commit that it returns is saved for the epoch and the server, and
  -- `reveal` then gives a reveal. verifyCommits accepts both from the certificate of the server that
  -- carries them and nothing else. The server's key is known, verifies what it signed, and
  -- katzenpost's commit for the epoch fits its reveal and is for this epoch.
  pub do_commit-verify_commits :
      (epoch : ℕ) (s t : State) (key signed : Bytes) (d : Document)
      → lookup cs.own_key_hash s.reverse_hash ≡ some key
      → ((v c : Bytes) → cs.sign v epoch ≡ some c → k.verify key c ≡ some v)
      → ((c r : Bytes)
          → cs.commit epoch ≡ some (c, r)
          → (sr.get_epoch c ≡ epoch) × (sr.verify_reveal c r ≡ true))
      → do_commit cs epoch s ≡ (t, ok signed)
      → (lookup_at epoch cs.own_key_hash t.commits ≡ some signed)
        × ((revealed : Bytes) × (reveal cs epoch t ≡ some revealed)
            × (verify_commits k sr s.reverse_hash epoch
                  ((cs.own_key_hash, certificate_of d signed revealed) ∷ [])
                ≡ ((cs.own_key_hash, signed) ∷ [], (cs.own_key_hash, revealed) ∷ [])))
  unfolding do_commit reveal
  do_commit-verify_commits epoch s t key signed d known signs commits h =
      elim (Option-cases (cs.commit epoch)) [
        | inl n ↦ absurd (ground arith)
        | inr ((c, r), n) ↦ elim (Option-cases (cs.sign c epoch)) [
          | inl n' ↦ absurd (ground arith)
          | inr (sc, n') ↦ elim (Option-cases (cs.sign r epoch)) [
            | inl n'' ↦ absurd (ground arith)
            | inr (sr', n'') ↦
                let good = commits c r n in
                let own = cs.own_key_hash in
                (
                  ground (arith, lookup_at-store epoch own epoch own sc (ensure epoch s.commits)),
                  (
                    sr',
                    ground
                        (arith, lookup_at-store epoch own epoch own sr' (ensure epoch s.reveals)),
                    Fits-verify_commits s.reverse_hash epoch signed sr' d record {
                      node_public_key = key;
                      commit = c;
                      reveal = r;
                      known = known;
                      commit_signed = ground (arith, signs c sc n');
                      reveal_signed = signs r sr' n'';
                      in_epoch = good.0;
                      reveal_fits = good.1;
                    },
                  ),
                )
          ]
        ]
      ]
