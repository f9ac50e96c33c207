-- ===== src/Authority/Tally/Counts.antt =====
-- The tallies of tallyVotes, against a count of what stands in the votes.
use opt.Base.{
  ℕ, ◌+◌, ◌≤◌, List, [], ◌∷◌, arith, some, none, Bool-cases, Option-cases, Bytes, bytes_eq,
  bytes_eq_sound, bytes_eq_refl, length, length-append, All, if◌then◌else◌, inl, inr,
}
use opt.Authority.Types.{Katzenpost, MixDescriptor, Document, Float64}
use opt.Authority.Tally.{
  Votes, Encodings, Tallies, add_vote, tally_mixes, tally_layers, tally_vote, tally_all,
}

-- No encoding has more votes than `f` allows.
abbrev pub Bounded : (Bytes → ℕ) → Votes → Type 0
Bounded f m = All (λ (e : Bytes × List Document). length e.1 ≤ f e.0) m

abbrev one_if : Bytes → Bytes → ℕ
one_if raw asked = if bytes_eq raw asked then 1 else 0

pub Bounded-mono :
    (f g : Bytes → ℕ) → ((r : Bytes) → f r ≤ g r) → (m : Votes) → Bounded f m → Bounded g m
Bounded-mono f g le [] h = tt
Bounded-mono f g le (e ∷ m) h = (omega (arith, h.0, le e.0), Bounded-mono f g le m h.1)

add_vote-Bounded :
    (f : Bytes → ℕ) (raw : Bytes) (vote : Document) (m : Votes)
    → Bounded f m
    → Bounded (λ r. f r + one_if raw r) (add_vote raw vote m)
unfolding add_vote
add_vote-Bounded f raw vote [] h = (ground (arith, bytes_eq_refl raw), tt)
add_vote-Bounded f raw vote ((raw', votes) ∷ m) h = elim (Bool-cases (bytes_eq raw' raw)) [
  | inl e ↦
      rw (e, add_vote)
        (
          ground (
            arith,
            bytes_eq_refl raw,
            bytes_eq_sound raw' raw e,
            length-append votes (vote ∷ []),
            h.0,
          ),
          Bounded-mono f (λ r. f r + one_if raw r) (λ r. omega arith) m h.1,
        )
  | inr e ↦ rw (e, add_vote) (omega (arith, h.0), add_vote-Bounded f raw vote m h.1)
]

module _ (k : Katzenpost) (enc : Encodings) where
  -- How often a descriptor with the encoding stands in a list.
  abbrev pub times : Bytes → List MixDescriptor → ℕ
  times raw [] = 0
  times raw (d ∷ ds) = elim (k.marshal_mix d) [
    | none ↦ times raw ds
    | some r ↦ one_if r raw + times raw ds
  ]

  abbrev pub times_in_layers : Bytes → List (List MixDescriptor) → ℕ
  times_in_layers raw [] = 0
  times_in_layers raw (l ∷ ls) = times raw l + times_in_layers raw ls

  tally_mixes-Bounded :
      (f : Bytes → ℕ) (ds : List MixDescriptor) (vote : Document) (m : Votes)
      → Bounded f m
      → Bounded (λ r. f r + times r ds) (tally_mixes k enc ds vote m)
  unfolding tally_mixes
  tally_mixes-Bounded f [] vote m h = Bounded-mono f _ (λ r. omega arith) m h
  tally_mixes-Bounded f (d ∷ ds) vote m h = elim (Option-cases (k.marshal_mix d)) [
    | inl e ↦
        rw (e, tally_mixes)
          (Bounded-mono (λ r. f r + times r ds) _ (λ r. ground arith) _
            (tally_mixes-Bounded f ds vote m h))
    | inr (raw, e) ↦
        rw (e, tally_mixes)
          (Bounded-mono (λ r. (f r + one_if raw r) + times r ds) _ (λ r. ground arith) _
            (tally_mixes-Bounded (λ r. f r + one_if raw r) ds vote (add_vote raw vote m)
              (add_vote-Bounded f raw vote m h)))
  ]

  tally_layers-Bounded :
      (f : Bytes → ℕ) (ls : List (List MixDescriptor)) (vote : Document) (m : Votes)
      → Bounded f m
      → Bounded (λ r. f r + times_in_layers r ls) (tally_layers k enc ls vote m)
  unfolding tally_layers
  tally_layers-Bounded f [] vote m h = Bounded-mono f _ (λ r. omega arith) m h
  tally_layers-Bounded f (l ∷ ls) vote m h =
      Bounded-mono (λ r. (f r + times r l) + times_in_layers r ls) _ (λ r. omega arith) _
        (tally_layers-Bounded (λ r. f r + times r l) ls vote (tally_mixes k enc l vote m)
          (tally_mixes-Bounded f l vote m h))

  -- How often a vote names a descriptor with the encoding.
  abbrev pub named_by : Bytes → Document → ℕ
  named_by raw vote =
      times raw vote.gateway_nodes
      + times raw vote.service_nodes
      + times_in_layers raw vote.topology

  abbrev pub named : Bytes → List Document → ℕ
  named raw [] = 0
  named raw (vote ∷ votes) = named_by raw vote + named raw votes

  -- How many votes have the encoded parameters.
  abbrev pub agreed : Float64 → Bytes → List Document → ℕ
  agreed lambda_g raw [] = 0
  agreed lambda_g raw (vote ∷ votes) = elim (enc.encode_parameters (vote.parameters, lambda_g)) [
    | none ↦ agreed lambda_g raw votes
    | some r ↦ one_if r raw + agreed lambda_g raw votes
  ]

  pub record BoundedBy (f g : Bytes → ℕ) (t : Tallies) : Type 0 where
    pub mixes_bounded : Bounded f t.mixes
    pub parameters_bounded : Bounded g t.parameters

  tally_vote-BoundedBy :
      (f g : Bytes → ℕ) (lambda_g : Float64) (vote : Document) (t : Tallies)
      → BoundedBy f g t
      → BoundedBy
          (λ r. f r + named_by r vote)
          (λ r. g r + agreed lambda_g r (vote ∷ []))
          (tally_vote k enc lambda_g vote t)
  unfolding tally_vote
  tally_vote-BoundedBy f g lambda_g vote t h =
      elim (Option-cases (enc.encode_parameters (vote.parameters, lambda_g))) [
        | inl e ↦
            rw (e, tally_vote)
              (record {
                mixes_bounded = Bounded-mono f _ (λ r. omega arith) _ h.mixes_bounded;
                parameters_bounded = Bounded-mono g _ (λ r. omega arith) _ h.parameters_bounded;
              })
        | inr (raw, e) ↦
            rw (e, tally_vote)
              (record {
                mixes_bounded =
                    Bounded-mono
                      (λ r.
                        ((f r + times r vote.gateway_nodes) + times r vote.service_nodes)
                        + times_in_layers r vote.topology)
                      _ (λ r. omega arith) _
                      (tally_layers-Bounded _ vote.topology vote _ (
                        tally_mixes-Bounded _ vote.service_nodes vote _
                          (tally_mixes-Bounded f vote.gateway_nodes vote t.mixes h.mixes_bounded)));
                parameters_bounded =
                    Bounded-mono (λ r. g r + one_if raw r) _ (λ r. ground arith) _
                      (add_vote-Bounded g raw vote t.parameters h.parameters_bounded);
              })
      ]

  pub tally_all-BoundedBy :
      (f g : Bytes → ℕ) (lambda_g : Float64) (votes : List Document) (t : Tallies)
      → BoundedBy f g t
      → BoundedBy
          (λ r. f r + named r votes)
          (λ r. g r + agreed lambda_g r votes)
          (tally_all k enc lambda_g votes t)
  unfolding tally_all
  tally_all-BoundedBy f g lambda_g [] t h = record {
    mixes_bounded = Bounded-mono f _ (λ r. omega arith) _ h.mixes_bounded;
    parameters_bounded = Bounded-mono g _ (λ r. omega arith) _ h.parameters_bounded;
  }
  tally_all-BoundedBy f g lambda_g (vote ∷ votes) t h =
      let b =
        tally_all-BoundedBy (λ r. f r + named_by r vote) (λ r. g r + agreed lambda_g r (vote ∷ []))
          lambda_g votes (tally_vote k enc lambda_g vote t)
          (tally_vote-BoundedBy f g lambda_g vote t h) in
      record {
        mixes_bounded =
            Bounded-mono (λ r. (f r + named_by r vote) + named r votes) _ (λ r. omega arith) _
              b.mixes_bounded;
        parameters_bounded =
            Bounded-mono (λ r. (g r + agreed lambda_g r (vote ∷ [])) + agreed lambda_g r votes) _
              (λ r. ground arith) _ b.parameters_bounded;
      }
