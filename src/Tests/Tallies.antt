-- ===== src/Tests/Tallies.antt =====
-- Tallies of the vote of one authority.
use opt.Base.{◌≤◌, ◌≡◌, refl, [], ◌∷◌, some, none, lookup, Map, length, bytes_eq}
use opt.Base.Unique.{values}
use opt.Base.Outcome.{ok}
use opt.Authority.Types.{Document, Float64}
use opt.Authority.State.{State}
use opt.Authority.Topology.{sort_nodes_by_public_key}
use opt.Authority.Topology.Sort.{sort_by}
use opt.Authority.Descriptor.{is_descriptor_authorized}
use opt.Authority.Tally.{Encodings, Tallied, tally_votes}
use opt.Authority.Tally.Threshold.{Agreed, tally_votes-Agreed}
use opt.Tests.World.{packages, settings, rates, voted_state, mix_11}

abbrev pub encodings : Encodings
encodings = record {
  encode_parameters = λ p. some (1 ∷ []);
  decode_parameters = λ raw. some (rates, 3);
  unmarshal_replica = λ raw. none;
}

abbrev pub fixed_state : State
fixed_state = record voted_state {
  cfg = record settings { topology = some ((11 ∷ []) ∷ []) };
  threshold = 1;
}

abbrev outcome : Tallied
outcome = record { nodes = mix_11 ∷ []; replica_nodes = []; params = (rates, 3) }

tally_run : tally_votes packages encodings 5 fixed_state ≡ ok outcome
unfolding tally_votes lookup bytes_eq sort_nodes_by_public_key sort_by is_descriptor_authorized
tally_run = refl

tally_votes-Agreed_example :
    (m : Map Document) × (lookup 5 fixed_state.votes ≡ some m)
    × (1 ≤ length m)
    × ((lambda_g : Float64) × Agreed packages encodings fixed_state (values m) lambda_g outcome)
tally_votes-Agreed_example = tally_votes-Agreed packages encodings fixed_state 5 outcome tally_run
