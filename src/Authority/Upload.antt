-- ===== src/Authority/Upload.antt =====
-- pki/server/state.go: the four commands that authorities send each other.
-- A handler gives the state after it and the status that it answers with. `onRevealUpload` slices
-- the certified bytes and may panic.
pub mod Vote
pub mod Cert
pub mod Reveal
pub mod Sig
pub mod Ballots
use opt.Base.{
  ℕ, zero, suc, ◌+◌, ◌*◌, String, List, [], ◌∷◌, Option, none, some, Bool, true, false, Bytes, Map,
  lookup, lookup_at, ensure, store, is_some, length, take, ltb, ◌==◌, if◌then◌else◌, not, ◌≡◌, ◌≢◌,
  ◌⊎◌, inl, inr, refl,
}
use opt.Base.Outcome.{Outcome, ok, panics}
use opt.Authority.Types.{Katzenpost, Document}
use opt.Authority.State.{State}

-- commands.Vote, Cert and Sig; a Reveal is read without its epoch.
pub record Upload : Type 0 where
  pub epoch : ℕ
  pub public_key : Bytes
  pub payload : Bytes

-- The error codes of the commands package that the handlers use, without the command's prefix.
pub data Status : Type 0 where
  done too_early too_late not_authorized not_signed already_received malformed invalid : Status

pub done_cases : (st : Status) → (st ≡ done) ⊎ (st ≢ done)
done_cases Status.done = inl refl
done_cases _ = inr (λ e. cc)

abbrev pub big_endian : ℕ → Bytes → ℕ
big_endian acc [] = acc
big_endian acc (b ∷ bs) = big_endian (acc * 256 + b) bs

-- binary.BigEndian.Uint64(b[0:8])
unfoldable pub epoch_from_bytes : Bytes → ℕ
epoch_from_bytes b = big_endian 0 (take 8 b)

module _ (k : Katzenpost) where
  abbrev pub key_hash : Upload → ℕ
  key_hash u = k.sum256 u.public_key

  abbrev pub is_authorized : State → ℕ → Bool
  is_authorized s pk = is_some (lookup pk s.authorized_authorities)

  -- What follows the checks of the signature and of the document's epoch.
  unfoldable pub save_vote : ℕ → Document → State → State × Status
  save_vote pk doc s = elim (lookup pk doc.shared_random_commit) [
    | none ↦ (s, malformed)
    | some commit ↦ (
      record s {
        votes = store s.voting_epoch pk doc s.votes;
        commits = store s.voting_epoch pk commit s.commits;
      },
      done,
    )
  ]

  -- The maps of the epoch are made before the later checks, also where these refuse the vote.
  unfoldable pub ensure_votes : State → State
  ensure_votes s = record s {
    votes = ensure s.voting_epoch s.votes;
    commits = ensure s.voting_epoch s.commits;
  }

  unfoldable pub check_vote : Upload → State → State × Status
  unfolding save_vote
  check_vote vote s = elim (k.verify vote.public_key vote.payload) [
    | none ↦ (s, not_signed)
    | some _ ↦ elim (k.parse_document vote.payload) [
      | none ↦ (s, not_signed)
      | some doc ↦
          if doc.epoch == s.voting_epoch then save_vote (key_hash vote) doc s else (s, malformed)
    ]
  ]

  unfoldable pub on_vote_upload : Upload → State → State × Status
  unfolding check_vote ensure_votes
  on_vote_upload vote s =
      let pk = key_hash vote in
      if not (is_authorized s pk)
      then (s, not_authorized)
      else if ltb vote.epoch s.voting_epoch
      then (s, too_early)
      else if ltb s.voting_epoch vote.epoch
      then (s, too_late)
      else let s' = ensure_votes s in
        if is_some (lookup_at s.voting_epoch pk s'.votes)
        then (s', already_received)
        else check_vote vote s'

  -- After the signature, the structure and the vote of the peer are checked.
  unfoldable pub save_certificate : ℕ → Document → State → State × Status
  save_certificate pk doc s =
      let s' = record s { certificates = ensure s.voting_epoch s.certificates } in
      if is_some (lookup_at s.voting_epoch pk s'.certificates)
      then (s', already_received)
      else (record s' { certificates = store s.voting_epoch pk doc s'.certificates }, done)

  unfoldable pub on_cert_upload : Upload → State → State × Status
  unfolding save_certificate
  on_cert_upload cert s =
      let pk = key_hash cert in
      if not (is_authorized s pk)
      then (s, not_authorized)
      else if ltb cert.epoch s.voting_epoch
      then (s, too_early)
      else if ltb s.voting_epoch cert.epoch
      then (s, too_late)
      else elim (k.verify cert.public_key cert.payload) [
        | none ↦ (s, not_signed)
        | some _ ↦ elim (k.parse_document cert.payload) [
          | none ↦ (s, not_signed)
          | some doc ↦
              if is_some (lookup_at s.voting_epoch pk s.votes)
              then save_certificate pk doc s
              else (s, too_early)
        ]
      ]

  unfoldable pub save_reveal : ℕ → Bytes → State → State × Status
  save_reveal pk payload s =
      let s' = record s { reveals = ensure s.voting_epoch s.reveals } in
      if is_some (lookup_at s.voting_epoch pk s'.reveals)
      then (s', already_received)
      else (record s' { reveals = store s.voting_epoch pk payload s'.reveals }, done)

  unfoldable pub check_reveal : ℕ → ℕ → Bytes → State → State × Status
  unfolding save_reveal
  check_reveal pk e payload s =
      if ltb e s.voting_epoch
      then (s, too_late)
      else if ltb s.voting_epoch e
      then (s, too_early)
      else if not (is_some (lookup s.voting_epoch s.commits))
      then (s, too_early)
      else if not (is_some (lookup_at s.voting_epoch pk s.commits))
      then (s, too_early)
      else save_reveal pk payload s

  -- The epoch is that of the signed bytes, and `certified[:8]` panics where they are fewer.
  unfoldable pub on_reveal_upload : Upload → State → Outcome (State × Status)
  unfolding check_reveal epoch_from_bytes
  on_reveal_upload reveal s =
      let pk = key_hash reveal in
      if not (is_authorized s pk)
      then ok (s, not_authorized)
      else elim (k.verify reveal.public_key reveal.payload) [
        | none ↦ ok (s, not_signed)
        | some certified ↦
            if ltb (length certified) 8
            then panics
            else ok (check_reveal pk (epoch_from_bytes certified) reveal.payload s)
      ]

  unfoldable pub dup_sig : ℕ → State → Bool
  dup_sig pk s = is_some (lookup_at s.voting_epoch pk s.signatures)

  unfoldable pub dup_vote : ℕ → State → Bool
  dup_vote pk s = is_some (lookup_at s.voting_epoch pk s.votes)

  unfoldable pub save_signature : ℕ → Bytes → State → State × Status
  unfolding dup_sig
  save_signature pk verified s =
      let s' = record s { signatures = ensure s.voting_epoch s.signatures } in
      if dup_sig pk s' then (s', already_received) else elim (k.unmarshal_signature verified) [
        | none ↦ (s', invalid)
        | some sig ↦ (record s' { signatures = store s.voting_epoch pk sig s'.signatures }, done)
      ]

  unfoldable pub on_sig_upload : Upload → State → State × Status
  unfolding save_signature
  on_sig_upload sig s =
      let pk = key_hash sig in
      if not (is_authorized s pk)
      then (s, not_authorized)
      else if ltb sig.epoch s.voting_epoch
      then (s, too_early)
      else if ltb s.voting_epoch sig.epoch
      then (s, too_late)
      else elim (k.verify sig.public_key sig.payload) [
        | none ↦ (s, not_signed)
        | some verified ↦ save_signature pk verified s
      ]
