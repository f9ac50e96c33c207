-- ===== src/Tests/Restarts.antt =====
-- A consensus that is kept over a restart, and a server's own commit.
use opt.Base.{
  ◌≡◌, refl, arith, [], ◌∷◌, some, Bytes, lookup, lookup_at, insert, inner, ensure, store,
}
use opt.Base.Outcome.{ok}
use opt.Authority.State.{State}
use opt.Authority.Commits.{verify_commits}
use opt.Authority.Agreement.{get_threshold_consensus}
use opt.Authority.Agreement.OwnCommit.{do_commit, reveal, certificate_of, do_commit-verify_commits}
use opt.Authority.Restore.{restore_persistence}
use opt.Authority.Restore.Frame.{is_reached}
use opt.Authority.Restore.Documents.{consensus-restored}
use opt.Tests.World.{packages, doc_5, started_state}
use opt.Tests.Tallies.{encodings}
use opt.Tests.Agreements.{random, agreement, viewed_state}
use opt.Tests.Starts.{restoring, old_database}

abbrev agreed_state : State
agreed_state = record viewed_state {
  documents = insert 5 doc_5 viewed_state.documents;
  db_documents = (5, 5 ∷ []) ∷ [];
}

agreed_run :
    get_threshold_consensus packages encodings random agreement 5 viewed_state
    ≡ (agreed_state, ok doc_5)
unfolding get_threshold_consensus lookup insert inner
agreed_run = refl

abbrev down_state : State
down_state = record started_state { db_documents = (5, 5 ∷ []) ∷ [] }

abbrev up_state : State
up_state = record down_state { documents = (5, doc_5) ∷ [] }

up_run :
    restore_persistence packages restoring old_database 5 down_state ≡ ok (old_database, up_state)
unfolding restore_persistence lookup insert inner
up_run = refl

consensus-restored_example : lookup 5 up_state.documents ≡ some doc_5
unfolding is_reached lookup
consensus-restored_example =
    consensus-restored packages restoring old_database old_database 5 down_state up_state encodings
      random agreement 5 viewed_state agreed_state doc_5 agreed_run refl (λ raw h. refl) refl refl
      refl refl up_run

abbrev committed_state : State
committed_state = record viewed_state {
  commits = store 5 1 (77 ∷ []) (ensure 5 viewed_state.commits);
  reveals = store 5 1 (78 ∷ []) (ensure 5 viewed_state.reveals);
}

commit_run : do_commit agreement 5 viewed_state ≡ (committed_state, ok (77 ∷ []))
unfolding do_commit
commit_run = refl

do_commit-verify_commits_example :
    (lookup_at 5 1 committed_state.commits ≡ some (77 ∷ []))
    × ((revealed : Bytes) × (reveal agreement 5 committed_state ≡ some revealed)
        × (verify_commits packages random viewed_state.reverse_hash 5
              ((1, certificate_of packages random agreement doc_5 (77 ∷ []) revealed) ∷ [])
            ≡ ((1, 77 ∷ []) ∷ [], (1, revealed) ∷ [])))
unfolding lookup
do_commit-verify_commits_example =
    do_commit-verify_commits packages random agreement 5 viewed_state committed_state (6 ∷ [])
      (77 ∷ []) doc_5 refl (λ v c h. ground arith) (λ c r h. ground arith) commit_run
