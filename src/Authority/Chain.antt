-- ===== src/Authority/Chain.antt =====
-- pki/server/state_chain_comm.go: what the authority asks of the appchain.
-- The bridge to the appchain agent is a parameter. It is asked with a command, of which
-- `ChainCommand` keeps the format and its arguments, and the payload.
pub mod Reads
use opt.Base.{
  ℕ, zero, suc, ◌+◌, ◌^◌, String, List, [], ◌∷◌, Option, none, some, Bytes, Bool, true, false, ltb,
  if◌then◌else◌,
}
use opt.Base.Outcome.{Outcome, ok, err, panics, ◌>>=◌, or_err}
use opt.Authority.Types.{Katzenpost, MixDescriptor, Document}

-- The formats chainbridge.Cmd_* with what is printed into them.
pub data ChainCommand : Type 0 where
  get_node : String → ChainCommand
  register : String → Bool → Bool → ChainCommand
  get_genesis_epoch : ChainCommand
  get_document set_document mix_descriptor_counter : ℕ → ChainCommand
  mix_descriptor_by_index : ℕ → ℕ → ChainCommand
  set_mix_descriptor : ℕ → String → ChainCommand

-- chainbridge.Node
pub record Node : Type 0 where
  pub identifier : String
  pub identity_key : Bytes

-- The error field of a response: none, that the node is registered, or another.
pub data ResponseError : Type 0 where
  no_error already_registered other_error : ResponseError

pub data DataError : Type 0 where
  no_data bad_data : DataError

-- The bridge, over the responses `R` and the worlds `W` that it reads and changes.
pub record ChainBridge (W : Type 0) (R : Type 0) : Type 0 where
  pub command : ChainCommand → Bytes → W → W × Option R  -- Command; `none` is an error
  pub response_error : R → ResponseError  -- Response.Error
  pub data_uint : R → ℕ × Option DataError  -- GetDataUInt
  pub data_bytes : R → Option Bytes  -- GetDataBytes
  pub data_node : R → Option Node  -- DataUnmarshal into a Node
  pub unmarshal_document : Bytes → Option Document  -- cbor.Unmarshal
  pub marshal_document : Document → Option Bytes  -- Marshal of the canonical EncMode

-- config.Node, as far as a registration reads it.
pub record NodeConfig : Type 0 where
  pub identifier : String
  pub identity_public_key : Bytes

abbrev pub and_then : {A B : Type 0} → Option A → (A → Option B) → Option B
and_then none f = none
and_then (some a) f = f a

abbrev pub add_some : Option MixDescriptor → List MixDescriptor → List MixDescriptor
add_some none ds = ds
add_some (some d) ds = d ∷ ds

module _ {W : Type 0} {R : Type 0} (k : Katzenpost) (b : ChainBridge W R) where
  abbrev pub Asked : Type 0 → Type 0
  Asked A = W × Outcome A

  unfoldable pub ch_nodes_get : String → W → Asked Node
  ch_nodes_get name w =
      let (w', r) = b.command (get_node name) [] w in
      (w', (do chResponse ← or_err "command" r; or_err "data" (b.data_node chResponse)))

  abbrev registered : ResponseError → Outcome Bool
  registered other_error = err "response"
  registered _ = ok true

  -- The payload is the marshalled key. A node that is registered already is no error.
  unfoldable pub ch_nodes_register : NodeConfig → Bool → Bool → W → Asked Bool
  ch_nodes_register v is_gateway is_service w =
      let (w', r) =
        b.command (register v.identifier is_gateway is_service) v.identity_public_key w in
      (w', (do chResponse ← or_err "command" r; registered (b.response_error chResponse)))

  abbrev uint_or_err : ℕ × Option DataError → Outcome ℕ
  uint_or_err (n, none) = ok n
  uint_or_err (n, some _) = err "data"

  unfoldable pub ch_pki_get_genesis_epoch : W → Asked ℕ
  ch_pki_get_genesis_epoch w =
      let (w', r) = b.command get_genesis_epoch [] w in
      (w', (do chResponse ← or_err "command" r; uint_or_err (b.data_uint chResponse)))

  unfoldable pub ch_pki_get_document : ℕ → W → Asked Document
  ch_pki_get_document epoch w =
      let (w', r) = b.command (get_document epoch) [] w in
      (
        w',
        (do
          chResponse ← or_err "command" r
          chDoc ← or_err "data" (b.data_bytes chResponse)
          or_err "document" (b.unmarshal_document chDoc)),
      )

  -- A response's error, most likely that the epoch has a document, is ignored.
  unfoldable pub ch_pki_set_document : Document → W → Asked Bool
  ch_pki_set_document doc w = elim (b.marshal_document doc) [
    | none ↦ (w, err "marshal")
    | some payload ↦
        let (w', r) = b.command (set_document doc.epoch) payload w in
        (w', (do _ ← or_err "command" r; ok true))
  ]

  -- `ErrNoData` is no error, and then the number is the one that came with it.
  abbrev count_or_err : ℕ × Option DataError → Outcome ℕ
  count_or_err (n, some bad_data) = err "data"
  count_or_err (n, _) = ok n

  unfoldable pub ch_pki_get_mix_descriptor_counter : ℕ → W → Asked ℕ
  ch_pki_get_mix_descriptor_counter epoch w =
      let (w', r) = b.command (mix_descriptor_counter epoch) [] w in
      (w', (do chResponse ← or_err "command" r; count_or_err (b.data_uint chResponse)))

  -- One round of the loop: an error at any of the three places skips the descriptor.
  unfoldable pub mix_descriptor_at : ℕ → ℕ → W → W × Option MixDescriptor
  mix_descriptor_at epoch i w =
      let (w', r) = b.command (mix_descriptor_by_index epoch i) [] w in
      (w', and_then (and_then r b.data_bytes) k.unmarshal_mix)

  -- `n` rounds from `i`
  unfoldable pub mix_descriptors_from : ℕ → ℕ → ℕ → W → W × List MixDescriptor
  unfolding mix_descriptor_at
  mix_descriptors_from epoch zero i w = (w, [])
  mix_descriptors_from epoch (suc n) i w =
      let (w', d) = mix_descriptor_at epoch i w in
      let (w'', ds) = mix_descriptors_from epoch n (i + 1) w' in (w'', add_some d ds)

  -- int(numDescriptors): from 2^63 on it is negative, and there is no round.
  abbrev pub rounds : ℕ → ℕ
  rounds n = if ltb n (2 ^ 63) then n else 0

  unfoldable pub ch_pki_get_mix_descriptors : ℕ → W → Asked (List MixDescriptor)
  unfolding ch_pki_get_mix_descriptor_counter mix_descriptors_from
  ch_pki_get_mix_descriptors epoch w =
      let (w', r) = ch_pki_get_mix_descriptor_counter epoch w in
      elim r [
        | err e ↦ (w', err e)
        | panics ↦ (w', panics)
        | ok n ↦ let (w'', ds) = mix_descriptors_from epoch (rounds n) 0 w' in (w'', ok ds)
      ]

  abbrev no_error_or_err : ResponseError → Outcome Bool
  no_error_or_err no_error = ok true
  no_error_or_err _ = err "response"

  unfoldable pub ch_pki_set_mix_descriptor : MixDescriptor → ℕ → W → Asked Bool
  ch_pki_set_mix_descriptor desc epoch w = elim (k.marshal_mix desc) [
    | none ↦ (w, err "marshal")
    | some payload ↦
        let (w', r) = b.command (set_mix_descriptor epoch desc.name) payload w in
        (w', (do chResponse ← or_err "command" r; no_error_or_err (b.response_error chResponse)))
  ]
