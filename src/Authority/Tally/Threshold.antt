-- ===== src/Authority/Tally/Threshold.antt =====
-- tallyVotes: the votes behind what is in its result.
use mathlib.Core.List.Permᴰ
use opt.Base.{
  ℕ, ◌≤◌, List, [], ◌∷◌, ◌≡◌, arith, some, true, Bool-cases, Option-cases, Bytes, length, All,
  if◌then◌else◌, leb, ltb, lookup, inl, inr, subst, Map,
}
use opt.Base.Outcome.{ok, >>=-eq-ok, ok-inj, Outcome-cases}
use opt.Base.Perms.{All-perm}
use opt.Base.Unique.{values}
use opt.Authority.Types.{
  Katzenpost, MixDescriptor, ReplicaDescriptor, Parameters, Document, Float64,
}
use opt.Authority.State.{State}
use opt.Authority.Topology.{sort_nodes_by_public_key}
use opt.Authority.Topology.Sort.{sort_by-perm}
use opt.Authority.Descriptor.{is_descriptor_authorized}
use opt.Authority.Tally.{
  Votes, Encodings, Tallies, Tallied, tally_all, chosen_mixes, chosen_replicas, chosen_parameters,
  finish_tally, tally_votes, compute_lambda_g,
}
use opt.Authority.Tally.Counts.{
  Bounded, Bounded-mono, BoundedBy, named, agreed, tally_all-BoundedBy,
}

module _ (k : Katzenpost) (enc : Encodings) (s : State) where
  -- The node is authorised, and a threshold of votes name an encoding of it.
  pub record Backed (count : Bytes → ℕ) (d : MixDescriptor) : Type 0 where
    pub authorised : is_descriptor_authorized k d s ≡ true
    pub encoding : Bytes
    pub decodes : k.unmarshal_mix encoding ≡ some d
    pub enough : s.threshold ≤ count encoding

  chosen_mixes-Backed :
      (f : Bytes → ℕ) (m : Votes) (nodes : List MixDescriptor)
      → Bounded f m
      → chosen_mixes k enc s m ≡ ok nodes
      → All (Backed f) nodes
  unfolding chosen_mixes
  chosen_mixes-Backed f [] nodes h q = subst (All (Backed f)) (ok-inj q) tt
  chosen_mixes-Backed f ((raw, votes) ∷ m) nodes h q =
      elim (Bool-cases (leb s.threshold (length votes))) [
        | inr e ↦ chosen_mixes-Backed f m nodes h.1 (rw (e, chosen_mixes) at q)
        | inl e ↦ elim (Option-cases (k.unmarshal_mix raw)) [
          | inl n ↦ absurd (ground arith)
          | inr (d, n) ↦ elim (Outcome-cases (chosen_mixes k enc s m)) [
            | inl (rest, r) ↦ elim (Bool-cases (is_descriptor_authorized k d s)) [
              | inl a ↦ subst (All (Backed f)) {x = d ∷ rest} (ground arith) (
                record {
                  authorised = a;
                  encoding = raw;
                  decodes = n;
                  enough = ground (arith, h.0);
                },
                chosen_mixes-Backed f m rest h.1 r,
              )
              | inr a ↦
                  subst (All (Backed f)) {x = rest} (ground arith)
                    (chosen_mixes-Backed f m rest h.1 r)
            ]
            | inr (inl (x, r)) ↦ absurd (ground arith)
            | inr (inr r) ↦ absurd (ground arith)
          ]
        ]
      ]

  chosen_parameters_enough :
      (f : Bytes → ℕ) (m : Votes) (params : Parameters × Float64)
      → Bounded f m
      → chosen_parameters k enc s.threshold m ≡ some params
      → (raw : Bytes) × (enc.decode_parameters raw ≡ some params) × (s.threshold ≤ f raw)
  unfolding chosen_parameters
  chosen_parameters_enough f [] params h q = absurd cc
  chosen_parameters_enough f ((raw, votes) ∷ m) params h q =
      elim (Option-cases (enc.decode_parameters raw)) [
        | inl e ↦ chosen_parameters_enough f m params h.1 (rw (e, chosen_parameters) at q)
        | inr (p, e) ↦ elim (Bool-cases (leb s.threshold (length votes))) [
          | inl l ↦ (raw, ground arith, ground (arith, h.0))
          | inr l ↦ chosen_parameters_enough f m params h.1 (rw (e, l, chosen_parameters) at q)
        ]
      ]

  -- What the result of a tally owes to the votes.
  pub record Agreed (votes : List Document) (lambda_g : Float64) (r : Tallied) : Type 0 where
    pub nodes_backed : All (Backed (λ raw. named k enc raw votes)) r.nodes
    pub parameters_backed :
        (raw : Bytes) × (enc.decode_parameters raw ≡ some r.params)
        × (s.threshold ≤ agreed k enc lambda_g raw votes)

  abbrev tallied : Float64 → List Document → Tallies
  tallied lambda_g votes =
      tally_all k enc lambda_g votes (record { mixes = []; replicas = []; parameters = [] })

  tallied-BoundedBy :
      (lambda_g : Float64) (votes : List Document)
      → BoundedBy k enc
          (λ raw. named k enc raw votes)
          (λ raw. agreed k enc lambda_g raw votes)
          (tallied lambda_g votes)
  tallied-BoundedBy lambda_g votes =
      let b =
        tally_all-BoundedBy k enc (λ _. 0) (λ _. 0) lambda_g votes
          (record { mixes = []; replicas = []; parameters = [] })
          (record { mixes_bounded = tt; parameters_bounded = tt }) in
      record {
        mixes_bounded = Bounded-mono _ _ (λ r. omega arith) _ b.mixes_bounded;
        parameters_bounded = Bounded-mono _ _ (λ r. omega arith) _ b.parameters_bounded;
      }

  sorted-Agreed :
      (lambda_g : Float64) (votes : List Document) (nodes : List MixDescriptor)
      (replicas : List ReplicaDescriptor) (params : Parameters × Float64)
      → chosen_mixes k enc s (tallied lambda_g votes).mixes ≡ ok nodes
      → chosen_parameters k enc s.threshold (tallied lambda_g votes).parameters ≡ some params
      → Agreed votes lambda_g (record {
        nodes = sort_nodes_by_public_key k nodes;
        replica_nodes = replicas;
        params = params;
      })
  unfolding sort_nodes_by_public_key
  sorted-Agreed lambda_g votes nodes replicas params e e' =
      let b = tallied-BoundedBy lambda_g votes in
      record {
        nodes_backed =
            All-perm (Backed (λ raw. named k enc raw votes)) (Permᴰ.symm (sort_by-perm _ nodes))
              (chosen_mixes-Backed (λ raw. named k enc raw votes) _ nodes b.mixes_bounded e);
        parameters_backed = chosen_parameters_enough _ _ params b.parameters_bounded e';
      }

  finish_tally-Agreed :
      (lambda_g : Float64) (votes : List Document) (r : Tallied)
      → finish_tally k enc lambda_g votes s ≡ ok r
      → Agreed votes lambda_g r
  unfolding finish_tally
  finish_tally-Agreed lambda_g votes r q =
      elim (Outcome-cases (chosen_mixes k enc s (tallied lambda_g votes).mixes)) [
        | inr (inl (x, e)) ↦ absurd (ground arith)
        | inr (inr e) ↦ absurd (ground arith)
        | inl (nodes, e) ↦
            elim (Outcome-cases (chosen_replicas k enc s (tallied lambda_g votes).replicas)) [
              | inr (inl (x, e')) ↦ absurd (ground arith)
              | inr (inr e') ↦ absurd (ground arith)
              | inl (replicas, e') ↦
                  elim (Option-cases
                    (chosen_parameters k enc s.threshold (tallied lambda_g votes).parameters)) [
                      | inl e'' ↦ absurd (ground arith)
                      | inr (params, e'') ↦
                          subst (Agreed votes lambda_g)
                            {x = record {
                              nodes = sort_nodes_by_public_key k nodes;
                              replica_nodes = replicas;
                              params = params;
                            }}
                            (ground arith)
                            (sorted-Agreed lambda_g votes nodes replicas params e e'')
                    ]
            ]
      ]

  -- tallyVotes gives a result only where the epoch has a threshold of votes. Each node of it is
  -- authorised and named, under one encoding, by at least a threshold of entries of the votes, and its
  -- parameters are those of at least a threshold of votes.
  pub tally_votes-Agreed :
      (epoch : ℕ) (r : Tallied)
      → tally_votes k enc epoch s ≡ ok r
      → (m : Map Document) × (lookup epoch s.votes ≡ some m)
        × (s.threshold ≤ length m)
        × ((lambda_g : Float64) × Agreed (values m) lambda_g r)
  unfolding tally_votes
  tally_votes-Agreed epoch r q = elim (Option-cases (lookup epoch s.votes)) [
    | inl e ↦ absurd (ground arith)
    | inr (m, e) ↦ elim (Bool-cases (ltb (length m) s.threshold)) [
      | inl l ↦ absurd (ground arith)
      | inr l ↦
          let (lambda_g, g, q') =
            >>=-eq-ok (if leb 1 (length m) then compute_lambda_g k enc s.cfg else ok 0) _
              (rw (e, l, tally_votes) at q) in
          (m, e, ground arith, (lambda_g, finish_tally-Agreed lambda_g (values m) r q'))
    ]
  ]
