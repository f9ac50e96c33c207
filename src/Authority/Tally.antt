-- ===== src/Authority/Tally.antt =====
-- pki/server/state.go: tallyVotes, the count of the votes that authorities exchange in the protocol
-- without an appchain. Go walks its maps in no fixed order; here they are lists.
pub mod Counts
pub mod Threshold
use opt.Base.{
  ℕ, suc, ◌+◌, List, [], ◌∷◌, ◌++◌, Option, none, some, Bool, true, false, Bytes, bytes_eq, Map,
  lookup, length, ltb, leb, ◌==◌, if◌then◌else◌, is_some,
}
use opt.Base.Outcome.{Outcome, ok, err, panics, ◌>>=◌, or_err, or_panic}
use opt.Base.Unique.{values}
use opt.Authority.Types.{
  Katzenpost, MixDescriptor, ReplicaDescriptor, Parameters, Document, Float64,
}
use opt.Authority.State.{State, Config}
use opt.Authority.Topology.{sort_nodes_by_public_key}
use opt.Authority.Descriptor.{is_descriptor_authorized, is_replica_descriptor_authorized}

-- A map from encodings to the votes that hold them.
abbrev pub Votes : Type 0
Votes = List (Bytes × List Document)

-- tally[k] = append(tally[k], vote)
unfoldable pub add_vote : Bytes → Document → Votes → Votes
add_vote raw vote [] = (raw, vote ∷ []) ∷ []
add_vote raw vote ((raw', votes) ∷ m) =
    let rest = add_vote raw vote m in
    if bytes_eq raw' raw then (raw', votes ++ vote ∷ []) ∷ m else (raw', votes) ∷ rest

-- len(tally[k])
unfoldable pub votes_for : Bytes → Votes → ℕ
votes_for raw [] = 0
votes_for raw ((raw', votes) ∷ m) = if bytes_eq raw' raw then length votes else votes_for raw m

-- What tallyVotes calls of other packages, next to `Katzenpost`.
pub record Encodings : Type 0 where
  pub encode_parameters : Parameters × Float64 → Option Bytes  -- gob
  pub decode_parameters : Bytes → Option (Parameters × Float64)
  pub unmarshal_replica : Bytes → Option ReplicaDescriptor

pub record Tallies : Type 0 where
  pub mixes : Votes
  pub replicas : Votes
  pub parameters : Votes

pub record Tallied : Type 0 where
  pub nodes : List MixDescriptor
  pub replica_nodes : List ReplicaDescriptor
  pub params : Parameters × Float64

module _ (k : Katzenpost) (enc : Encodings) where
  -- computeLambdaG of server.go: the first layer of the configured topology. Without a topology, or
  -- without a layer, it panics.
  unfoldable pub compute_lambda_g : Config → Outcome Float64
  compute_lambda_g cfg = elim cfg.topology [
    | none ↦ panics
    | some layers ↦ elim layers [
      | [] ↦ panics
      | ids ∷ _ ↦
          ok (if length ids == 1 then k.sum_of_lambdas cfg.parameters else k.n_log_n (length ids))
    ]
  ]

  -- A descriptor that does not encode is skipped.
  unfoldable pub tally_mixes : List MixDescriptor → Document → Votes → Votes
  unfolding add_vote
  tally_mixes [] vote m = m
  tally_mixes (d ∷ ds) vote m = elim (k.marshal_mix d) [
    | none ↦ tally_mixes ds vote m
    | some raw ↦ tally_mixes ds vote (add_vote raw vote m)
  ]

  unfoldable pub tally_layers : List (List MixDescriptor) → Document → Votes → Votes
  unfolding tally_mixes
  tally_layers [] vote m = m
  tally_layers (l ∷ ls) vote m = tally_layers ls vote (tally_mixes l vote m)

  unfoldable pub tally_replicas : List ReplicaDescriptor → Document → Votes → Votes
  unfolding add_vote
  tally_replicas [] vote m = m
  tally_replicas (d ∷ ds) vote m = elim (k.marshal_replica d) [
    | none ↦ tally_replicas ds vote m
    | some raw ↦ tally_replicas ds vote (add_vote raw vote m)
  ]

  -- A vote whose parameters do not encode is skipped.
  unfoldable pub tally_vote : Float64 → Document → Tallies → Tallies
  unfolding tally_layers tally_replicas
  tally_vote lambda_g vote t = elim (enc.encode_parameters (vote.parameters, lambda_g)) [
    | none ↦ t
    | some raw ↦ record {
      mixes =
          tally_layers vote.topology vote
            (tally_mixes vote.service_nodes vote (tally_mixes vote.gateway_nodes vote t.mixes));
      replicas = tally_replicas vote.storage_replicas vote t.replicas;
      parameters = add_vote raw vote t.parameters;
    }
  ]

  unfoldable pub tally_all : Float64 → List Document → Tallies → Tallies
  unfolding tally_vote
  tally_all lambda_g [] t = t
  tally_all lambda_g (vote ∷ votes) t = tally_all lambda_g votes (tally_vote lambda_g vote t)

  -- The mixes with a threshold of votes that are authorised; one that does not decode is an error.
  unfoldable pub chosen_mixes : State → Votes → Outcome (List MixDescriptor)
  chosen_mixes s [] = ok []
  chosen_mixes s ((raw, votes) ∷ m) =
      let rest = chosen_mixes s m in
      if leb s.threshold (length votes)
      then (do
        desc ← or_err "descriptor" (k.unmarshal_mix raw)
        nodes ← rest
        ok (if is_descriptor_authorized k desc s then desc ∷ nodes else nodes))
      else rest

  unfoldable pub chosen_replicas : State → Votes → Outcome (List ReplicaDescriptor)
  chosen_replicas s [] = ok []
  chosen_replicas s ((raw, votes) ∷ m) =
      let rest = chosen_replicas s m in
      if leb s.threshold (length votes)
      then (do
        desc ← or_err "descriptor" (enc.unmarshal_replica raw)
        nodes ← rest
        ok (if is_replica_descriptor_authorized k desc s then desc ∷ nodes else nodes))
      else rest

  -- The first parameters that decode and have a threshold of votes.
  unfoldable pub chosen_parameters : ℕ → Votes → Option (Parameters × Float64)
  chosen_parameters threshold [] = none
  chosen_parameters threshold ((raw, votes) ∷ m) =
      let rest = chosen_parameters threshold m in
      elim (enc.decode_parameters raw) [
        | none ↦ rest
        | some params ↦ if leb threshold (length votes) then some params else rest
      ]

  -- What follows the loop over the votes.
  unfoldable pub finish_tally : Float64 → List Document → State → Outcome Tallied
  unfolding tally_all chosen_mixes chosen_replicas chosen_parameters
  finish_tally lambda_g votes s = do
    let t = tally_all lambda_g votes (record { mixes = []; replicas = []; parameters = [] })
    nodes ← chosen_mixes s t.mixes
    replica_nodes ← chosen_replicas s t.replicas
    params ← or_err "consensus failure" (chosen_parameters s.threshold t.parameters)
    ok (record {
      nodes = sort_nodes_by_public_key k nodes;
      replica_nodes = replica_nodes;
      params = params;
    })

  -- computeLambdaG is asked for each vote, with the same result.
  unfoldable pub tally_votes : ℕ → State → Outcome Tallied
  unfolding compute_lambda_g finish_tally
  tally_votes epoch s = elim (lookup epoch s.votes) [
    | none ↦ err "no votes"
    | some votes ↦ if ltb (length votes) s.threshold then err "not enough votes" else (do
      lambda_g ← (if leb 1 (length votes) then compute_lambda_g s.cfg else ok 0)
      finish_tally lambda_g (values votes) s)
  ]
