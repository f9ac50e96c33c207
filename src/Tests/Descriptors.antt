-- ===== src/Tests/Descriptors.antt =====
-- Descriptors of a mix and of a replica, and the documents of an epoch.
use opt.Base.{
  ◌≡◌, ◌⊎◌, ◌↔◌, refl, arith, [], ◌∷◌, some, none, Bool, not, ◌&&◌, Bytes, lookup, lookup_at,
  is_some, ◌==◌, if◌then◌else◌,
}
use opt.Authority.Types.{MixDescriptor}
use opt.Authority.State.{State}
use opt.Authority.Descriptor.{on_descriptor_upload}
use opt.Authority.Descriptor.Laws.{on_descriptor_upload_ok_iff, on_descriptor_upload_effect}
use opt.Authority.Consensus.{prune_documents}
use opt.Authority.Consensus.Serve.{Prunes, prune_documents-Prunes}
use opt.Tests.World.{packages, voting_state, mix_11, mix_12, doc_4}

abbrev described : State
described = record voting_state { descriptors = (5, (11, mix_11) ∷ []) ∷ [] }

abbrev raw_11 : Bytes
raw_11 = 11 ∷ []

described_lookup : lookup_at 5 11 described.descriptors ≡ some mix_11
unfolding lookup_at lookup
described_lookup = refl

on_descriptor_upload_ok_example :
    ((on_descriptor_upload packages raw_11 mix_11 5 described).1 ≡ none) ↔ (
      ((lookup_at 5 11 described.descriptors ≡ none) × (lookup 5 described.documents ≡ none))
      ⊎ ((d : MixDescriptor) × (lookup_at 5 11 described.descriptors ≡ some d)
          × (packages.marshal_mix d ≡ some raw_11)))
on_descriptor_upload_ok_example = on_descriptor_upload_ok_iff packages raw_11 mix_11 5 described

abbrev fresh_12 : Bool
fresh_12 =
    not (is_some (lookup_at 5 12 described.descriptors))
    && not (is_some (lookup 5 described.documents))
    && (5 == 5)
    && (12 == 12)

on_descriptor_upload_effect_example :
    (lookup_at 5 12 (on_descriptor_upload packages raw_11 mix_12 5 described).0.descriptors
      ≡ (if fresh_12 then some mix_12 else lookup_at 5 12 described.descriptors))
    × (lookup_at 5 12 (on_descriptor_upload packages raw_11 mix_12 5 described).0.db_descriptors
        ≡ (if fresh_12 then some raw_11 else lookup_at 5 12 described.db_descriptors))
on_descriptor_upload_effect_example =
    on_descriptor_upload_effect packages raw_11 mix_12 5 described 5 12

abbrev fresh_21 : Bool
fresh_21 =
    not (is_some (lookup_at 5 21 described.replica_descriptors))
    && not (is_some (lookup 5 described.documents))
    && (5 == 5)
    && (21 == 21)

held_4 : lookup 4 voting_state.documents ≡ some doc_4
unfolding lookup
held_4 = refl

prune_documents_example : Prunes 8 voting_state (prune_documents 8 voting_state)
prune_documents_example = prune_documents-Prunes 8 voting_state (omega arith) (omega arith)
