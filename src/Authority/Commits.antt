-- ===== src/Authority/Commits.antt =====
-- pki/server/state.go: verifyCommits, which compares the commits and the reveals that the
-- authorities' certificates pass on. The line of the log that slices two commits to 32 bytes is left
-- out: both have a signature that has been verified, and so are longer.
pub mod SameKeys
pub mod Verified
use opt.Base.{
  ℕ, List, [], ◌∷◌, Option, none, some, Bool, true, false, not, Bytes, bytes_eq, Map, lookup,
  insert, delete, inner, is_some, ◌≡◌, ◌⊎◌, inl, inr, refl, ◌==◌, if◌then◌else◌,
}
use opt.Authority.Types.{Katzenpost, Document}
use opt.Authority.State.{State}

-- pki.SharedRandom: the epoch of a commit, and whether a reveal fits it.
pub record SharedRandom : Type 0 where
  pub get_epoch : Bytes → ℕ  -- SetCommit and GetEpoch
  pub verify_reveal : Bytes → Bytes → Bool  -- SetCommit and Verify

-- The three maps of verifyCommits.
pub record Seen : Type 0 where
  pub badnodes : Map Bool
  pub comitted : Map Bytes
  pub revealed : Map Bytes

unfoldable pub mark_bad : ℕ → Seen → Seen
mark_bad pk seen = record seen { badnodes = insert pk true seen.badnodes }

-- The first commit of a node is kept, and another one makes the node bad.
unfoldable pub see_commit : ℕ → Bytes → Seen → Seen
unfolding mark_bad
see_commit pk signed seen = elim (lookup pk seen.comitted) [
  | none ↦ record seen { comitted = insert pk signed seen.comitted }
  | some signed' ↦ if bytes_eq signed signed' then seen else mark_bad pk seen
]

unfoldable pub see_reveal : ℕ → Bytes → Seen → Seen
unfolding mark_bad
see_reveal pk signed seen = elim (lookup pk seen.revealed) [
  | none ↦ record seen { revealed = insert pk signed seen.revealed }
  | some signed' ↦ if bytes_eq signed signed' then seen else mark_bad pk seen
]

-- What the checks of one commit find: a node that is skipped, a certificate that is bad, both of
-- its author and of the node, or a commit and a reveal that fit.
pub data Verdict : Type 0 where
  skipped bad_certificate bad_both : Verdict
  fits : Bytes → Verdict

pub Verdict-cases :
    (v : Verdict)
    → ((r : Bytes) × (v ≡ fits r)) ⊎ ((v ≡ skipped) ⊎ ((v ≡ bad_certificate) ⊎ (v ≡ bad_both)))
Verdict-cases (fits r) = inl (r, refl)
Verdict-cases skipped = inr (inl refl)
Verdict-cases bad_certificate = inr (inr (inl refl))
Verdict-cases bad_both = inr (inr (inr refl))

module _ (k : Katzenpost) (sr : SharedRandom) (reverse_hash : Map Bytes) (epoch : ℕ) where
  -- The reveal's signature and the pair of values, for the key `v` of the node.
  unfoldable pub check_reveal_of : Bytes → Bytes → Bytes → Verdict
  check_reveal_of v commit signed_reveal = elim (k.verify v signed_reveal) [
    | none ↦ bad_certificate
    | some reveal ↦
        if not (sr.get_epoch commit == epoch)
        then bad_both
        else if not (sr.verify_reveal commit reveal)
        then bad_both
        else fits signed_reveal
  ]

  unfoldable pub check_commit : Map Bytes → ℕ → Bytes → Seen → Verdict
  unfolding check_reveal_of
  check_commit reveals pk2 signed_commit seen =
      if is_some (lookup pk2 seen.badnodes) then skipped else elim (lookup pk2 reverse_hash) [
        | none ↦ bad_certificate
        | some v ↦ elim (k.verify v signed_commit) [
          | none ↦ bad_certificate
          | some commit ↦ elim (lookup pk2 reveals) [
            | none ↦ bad_certificate
            | some signed_reveal ↦ check_reveal_of v commit signed_reveal
          ]
        ]
      ]

  -- The inner loop; a bad certificate ends it.
  unfoldable pub check_commits : ℕ → Map Bytes → Map Bytes → Seen → Seen
  unfolding check_commit mark_bad see_commit see_reveal
  check_commits pk reveals [] seen = seen
  check_commits pk reveals ((pk2, signed_commit) ∷ rest) seen =
      elim (check_commit reveals pk2 signed_commit seen) [
        | skipped ↦ check_commits pk reveals rest seen
        | bad_certificate ↦ mark_bad pk seen
        | bad_both ↦ mark_bad pk2 (mark_bad pk seen)
        | fits signed_reveal ↦
            check_commits pk reveals rest
              (see_reveal pk2 signed_reveal (see_commit pk2 signed_commit seen))
      ]

  unfoldable pub check_certificates : Map Document → Seen → Seen
  unfolding check_commits
  check_certificates [] seen = seen
  check_certificates ((pk, certificate) ∷ rest) seen =
      let after =
        if is_some (lookup pk seen.badnodes)
        then seen
        else check_commits pk certificate.shared_random_reveal certificate.shared_random_commit
            seen in
      check_certificates rest after

  unfoldable pub drop_bad : Map Bool → Seen → Seen
  drop_bad [] seen = seen
  drop_bad ((pk, _) ∷ rest) seen =
      drop_bad rest
        (record seen { comitted = delete pk seen.comitted; revealed = delete pk seen.revealed })

  unfoldable pub verify_commits : Map Document → Map Bytes × Map Bytes
  unfolding check_certificates drop_bad
  verify_commits certificates =
      let seen =
        check_certificates certificates (record { badnodes = []; comitted = []; revealed = [] }) in
      let kept = drop_bad seen.badnodes seen in (kept.comitted, kept.revealed)
