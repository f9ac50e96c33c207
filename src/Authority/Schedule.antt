-- ===== src/Authority/Schedule.antt =====
-- The schedule of an epoch: the deadlines of pki/server/state.go and pki/server/aux.go, as
-- functions of epochtime.Period in nanoseconds. No product overflows an int64 for periods below
-- 2^60 ns, some 36 years.
use opt.Base.{ℕ, ◌+◌, ◌*◌, ◌/◌}

unfoldable pub mix_publish_deadline : ℕ → ℕ
mix_publish_deadline period = period / 8

unfoldable pub authority_vote_deadline : ℕ → ℕ
unfolding mix_publish_deadline
authority_vote_deadline period = mix_publish_deadline period + period / 8

unfoldable pub authority_reveal_deadline : ℕ → ℕ
unfolding authority_vote_deadline
authority_reveal_deadline period = authority_vote_deadline period + period / 8

unfoldable pub authority_cert_deadline : ℕ → ℕ
unfolding authority_reveal_deadline
authority_cert_deadline period = authority_reveal_deadline period + period / 8

unfoldable pub publish_consensus_deadline : ℕ → ℕ
unfolding authority_cert_deadline
publish_consensus_deadline period = authority_cert_deadline period + period / 8

unfoldable pub descriptor_block_deadline : ℕ → ℕ
descriptor_block_deadline period = period * 2 / 8

unfoldable pub doc_generation_deadline : ℕ → ℕ
doc_generation_deadline period = period * 7 / 8

-- `generationDeadline` in documentForEpoch
unfoldable pub generation_deadline : ℕ → ℕ
generation_deadline period = 7 * (period / 8)

unfoldable pub jitter_max : ℕ → ℕ
jitter_max period = period * 1 / 16
