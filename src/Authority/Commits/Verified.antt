-- ===== src/Authority/Commits/Verified.antt =====
-- verifyCommits: the commits and the reveals that it returns.
use opt.Base.{
  ℕ, [], ◌∷◌, ◌≡◌, sym, arith, none, some, Bool, true, Bytes, Map, lookup, insert, is_some, ◌==◌,
  lookup-insert, lookup-delete, Option-cases, Bool-cases, inl, inr, length, subst,
}
use opt.Authority.Types.{Katzenpost, Document}
use opt.Authority.Commits.SameKeys.{
  SameKeys, insert-SameKeys, delete-SameKeys, lookup-SameKeys, length-SameKeys,
}
use opt.Authority.Commits.{
  SharedRandom, Seen, Verdict-cases, mark_bad, see_commit, see_reveal, fits, check_reveal_of,
  check_commit, check_commits, check_certificates, drop_bad, verify_commits,
}

module _ (k : Katzenpost) (sr : SharedRandom) (reverse_hash : Map Bytes) (epoch : ℕ) where
  -- A commit and a reveal of a node: its key signs both, the commit is for the epoch, and the reveal
  -- fits it.
  pub record Fits (pk : ℕ) (signed_commit signed_reveal : Bytes) : Type 0 where
    pub node_public_key : Bytes
    pub commit : Bytes
    pub reveal : Bytes
    pub known : lookup pk reverse_hash ≡ some node_public_key
    pub commit_signed : k.verify node_public_key signed_commit ≡ some commit
    pub reveal_signed : k.verify node_public_key signed_reveal ≡ some reveal
    pub in_epoch : sr.get_epoch commit ≡ epoch
    pub reveal_fits : sr.verify_reveal commit reveal ≡ true

  -- The nodes of the commits are those of the reveals, and what stands for a node fits.
  pub record Paired (commits reveals : Map Bytes) : Type 0 where
    pub same_nodes : SameKeys commits reveals
    pub each_fits :
        (pk : ℕ) (c r : Bytes)
        → lookup pk commits ≡ some c
        → lookup pk reveals ≡ some r
        → Fits pk c r

  check_reveal_of-Fits :
      (pk : ℕ) (v commit signed_commit signed_reveal r : Bytes)
      → lookup pk reverse_hash ≡ some v
      → k.verify v signed_commit ≡ some commit
      → check_reveal_of k sr reverse_hash epoch v commit signed_reveal ≡ fits r
      → Fits pk signed_commit r
  unfolding check_reveal_of
  check_reveal_of-Fits pk v commit signed_commit signed_reveal r h q e =
      elim (Option-cases (k.verify v signed_reveal)) [
        | inl n ↦ absurd (ground arith)
        | inr (reveal, n) ↦ record {
          node_public_key = v;
          commit = commit;
          reveal = reveal;
          known = h;
          commit_signed = q;
          reveal_signed = ground arith;
          in_epoch = ground arith;
          reveal_fits = ground arith;
        }
      ]

  check_commit-Fits :
      (reveals : Map Bytes) (pk2 : ℕ) (signed_commit r : Bytes) (seen : Seen)
      → check_commit k sr reverse_hash epoch reveals pk2 signed_commit seen ≡ fits r
      → Fits pk2 signed_commit r
  unfolding check_commit
  check_commit-Fits reveals pk2 signed_commit r seen e =
      elim (Option-cases (lookup pk2 reverse_hash)) [
        | inl n ↦ absurd (ground arith)
        | inr (v, n) ↦ elim (Option-cases (k.verify v signed_commit)) [
          | inl n' ↦ absurd (ground arith)
          | inr (commit, n') ↦ elim (Option-cases (lookup pk2 reveals)) [
            | inl n'' ↦ absurd (ground arith)
            | inr (signed_reveal, n'') ↦
                check_reveal_of-Fits pk2 v commit signed_commit signed_reveal r n n' (ground arith)
          ]
        ]
      ]

  both_fresh :
      (pk : ℕ) (c r : Bytes) (seen : Seen)
      → SameKeys seen.comitted seen.revealed
      → lookup pk seen.comitted ≡ none
      → ((see_reveal pk r (see_commit pk c seen)).comitted ≡ insert pk c seen.comitted)
        × ((see_reveal pk r (see_commit pk c seen)).revealed ≡ insert pk r seen.revealed)
  unfolding see_commit see_reveal
  both_fresh pk c r seen h e = ground (arith, lookup-SameKeys pk seen.comitted seen.revealed h)

  both_old :
      (pk : ℕ) (c r c' : Bytes) (seen : Seen)
      → SameKeys seen.comitted seen.revealed
      → lookup pk seen.comitted ≡ some c'
      → ((see_reveal pk r (see_commit pk c seen)).comitted ≡ seen.comitted)
        × ((see_reveal pk r (see_commit pk c seen)).revealed ≡ seen.revealed)
  unfolding see_commit see_reveal mark_bad
  both_old pk c r c' seen h e = ground (arith, lookup-SameKeys pk seen.comitted seen.revealed h)

  insert-Paired :
      (pk : ℕ) (c r : Bytes) (m n : Map Bytes)
      → Fits pk c r
      → Paired m n
      → Paired (insert pk c m) (insert pk r n)
  insert-Paired pk c r m n f p = record {
    same_nodes = insert-SameKeys pk c r m n p.same_nodes;
    each_fits = λ q c' r' e e'. elim (Bool-cases (pk == q)) [
      | inl h ↦
          subst (λ x. Fits q x r') {x = c} (ground (arith, lookup-insert pk q c m))
            (subst (λ x. Fits q c x) {x = r} (ground (arith, lookup-insert pk q r n))
              (subst (λ x. Fits x c r) (ground arith) f))
      | inr h ↦
          p.each_fits q c' r' (ground (arith, lookup-insert pk q c m))
            (ground (arith, lookup-insert pk q r n))
    ];
  }

  see_both-Paired :
      (pk : ℕ) (c r : Bytes) (seen : Seen)
      → Fits pk c r
      → Paired seen.comitted seen.revealed
      → Paired
          (see_reveal pk r (see_commit pk c seen)).comitted
          (see_reveal pk r (see_commit pk c seen)).revealed
  see_both-Paired pk c r seen f p = elim (Option-cases (lookup pk seen.comitted)) [
    | inl e ↦
        let (x, y) = both_fresh pk c r seen p.same_nodes e in
        subst (λ m. Paired m (see_reveal pk r (see_commit pk c seen)).revealed) (sym x)
          (subst (λ n. Paired (insert pk c seen.comitted) n) (sym y)
            (insert-Paired pk c r seen.comitted seen.revealed f p))
    | inr (c', e) ↦
        let (x, y) = both_old pk c r c' seen p.same_nodes e in
        subst (λ m. Paired m (see_reveal pk r (see_commit pk c seen)).revealed) (sym x)
          (subst (λ n. Paired seen.comitted n) (sym y) p)
  ]

  check_commits-Paired :
      (pk : ℕ) (reveals : Map Bytes) (commits : Map Bytes) (seen : Seen)
      → Paired seen.comitted seen.revealed
      → Paired
          (check_commits k sr reverse_hash epoch pk reveals commits seen).comitted
          (check_commits k sr reverse_hash epoch pk reveals commits seen).revealed
  unfolding check_commits mark_bad
  check_commits-Paired pk reveals [] seen p = p
  check_commits-Paired pk reveals ((pk2, c) ∷ rest) seen p =
      elim (Verdict-cases (check_commit k sr reverse_hash epoch reveals pk2 c seen)) [
        | inl (r, e) ↦
            rw (e, check_commits)
              (check_commits-Paired pk reveals rest (see_reveal pk2 r (see_commit pk2 c seen))
                (see_both-Paired pk2 c r seen (check_commit-Fits reveals pk2 c r seen e) p))
        | inr (inl e) ↦ rw (e, check_commits) (check_commits-Paired pk reveals rest seen p)
        | inr (inr (inl e)) ↦ rw (e, check_commits) p
        | inr (inr (inr e)) ↦ rw (e, check_commits) p
      ]

  check_certificates-Paired :
      (certificates : Map Document) (seen : Seen)
      → Paired seen.comitted seen.revealed
      → Paired
          (check_certificates k sr reverse_hash epoch certificates seen).comitted
          (check_certificates k sr reverse_hash epoch certificates seen).revealed
  unfolding check_certificates
  check_certificates-Paired [] seen p = p
  check_certificates-Paired ((pk, d) ∷ rest) seen p =
      elim (Bool-cases (is_some (lookup pk seen.badnodes))) [
        | inl e ↦ rw (e, check_certificates) (check_certificates-Paired rest seen p)
        | inr e ↦
            rw (e, check_certificates)
              (check_certificates-Paired rest _
                (check_commits-Paired pk d.shared_random_reveal d.shared_random_commit seen p))
      ]

  drop_bad-Paired :
      (bad : Map Bool) (seen : Seen)
      → Paired seen.comitted seen.revealed
      → Paired
          (drop_bad k sr reverse_hash epoch bad seen).comitted
          (drop_bad k sr reverse_hash epoch bad seen).revealed
  unfolding drop_bad
  drop_bad-Paired [] seen p = p
  drop_bad-Paired ((pk, x) ∷ rest) seen p = drop_bad-Paired rest _ (record {
    same_nodes = delete-SameKeys pk seen.comitted seen.revealed p.same_nodes;
    each_fits = λ q c r e e'.
        p.each_fits q c r (ground (arith, lookup-delete pk q seen.comitted))
          (ground (arith, lookup-delete pk q seen.revealed));
  })

  -- The commits and the reveals that verifyCommits returns are of the same nodes, and so of the same
  -- number; each is signed by its node, the commit is for the epoch, and the reveal fits it.
  pub verify_commits-Paired :
      (certificates : Map Document)
      → let (commits, reveals) = verify_commits k sr reverse_hash epoch certificates in
        Paired commits reveals × (length commits ≡ length reveals)
  unfolding verify_commits lookup
  verify_commits-Paired certificates =
      let start : Seen = record { badnodes = []; comitted = []; revealed = [] } in
      let seen = check_certificates k sr reverse_hash epoch certificates start in
      let p = drop_bad-Paired seen.badnodes seen (
        check_certificates-Paired certificates start
          (record { same_nodes = tt; each_fits = λ pk c r e e'. absurd cc })) in
      (p, length-SameKeys _ _ p.same_nodes)
