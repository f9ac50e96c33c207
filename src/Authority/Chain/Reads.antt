-- ===== src/Authority/Chain/Reads.antt =====
-- What a bridge that only reads gives: the loop over the descriptors of an epoch.
use opt.Base.{ℕ, zero, suc, ◌+◌, ◌^◌, ◌<◌, List, [], Option, none, some, Bytes, ◌≡◌, refl, arith}
use opt.Base.Outcome.{ok}
use opt.Authority.Types.{Katzenpost, MixDescriptor}
use opt.Authority.Chain.{
  ChainCommand, ChainBridge, mix_descriptor_counter, mix_descriptor_by_index, and_then, add_some,
  mix_descriptors_from, ch_pki_get_mix_descriptors, ch_pki_get_mix_descriptor_counter,
}

module _ {W : Type 0} {R : Type 0} (k : Katzenpost) (b : ChainBridge W R) where
  -- The command leaves the world as it is.
  abbrev pub ReadsOnly : ChainCommand → Type 0
  ReadsOnly c = (payload : Bytes) (w : W) → (b.command c payload w).0 ≡ w

  -- The descriptor that the chain holds at the index, if every step of reading it succeeds.
  abbrev pub held_at : W → ℕ → ℕ → Option MixDescriptor
  held_at w epoch i =
      and_then (and_then (b.command (mix_descriptor_by_index epoch i) [] w).1 b.data_bytes)
        k.unmarshal_mix

  -- The descriptors at the indices from `i` on, those that cannot be read left out.
  abbrev pub readable : W → ℕ → ℕ → ℕ → List MixDescriptor
  readable w epoch zero i = []
  readable w epoch (suc n) i = add_some (held_at w epoch i) (readable w epoch n (i + 1))

  mix_descriptors_from_lem :
      (epoch n i : ℕ) (w : W)
      → ((j : ℕ) → ReadsOnly (mix_descriptor_by_index epoch j))
      → mix_descriptors_from k b epoch n i w ≡ (w, readable w epoch n i)
  unfolding mix_descriptors_from
  mix_descriptors_from_lem epoch zero i w h = refl
  mix_descriptors_from_lem epoch (suc n) i w h =
      rw (h i [] w, mix_descriptors_from_lem epoch n (i + 1) w h) refl

  -- When the chain answers a count `n` below 2^63 and reading changes nothing, the result is the list of the
  -- descriptors at the indices below `n`, in their order, without those that fail to be read.
  pub ch_pki_get_mix_descriptors_lem :
      (epoch n : ℕ) (w : W) (r : R)
      → ReadsOnly (mix_descriptor_counter epoch)
      → ((j : ℕ) → ReadsOnly (mix_descriptor_by_index epoch j))
      → (b.command (mix_descriptor_counter epoch) [] w).1 ≡ some r
      → b.data_uint r ≡ (n, none)
      → n < 2 ^ 63
      → ch_pki_get_mix_descriptors k b epoch w ≡ (w, ok (readable w epoch n 0))
  unfolding ch_pki_get_mix_descriptors ch_pki_get_mix_descriptor_counter
  ch_pki_get_mix_descriptors_lem epoch n w r hc hi q u lt =
      ground (arith, hc [] w, mix_descriptors_from_lem epoch n 0 w hi)
