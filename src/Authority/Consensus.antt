-- ===== src/Authority/Consensus.antt =====
-- pki/server/state.go and aux.go: the documents that the authority holds, serves and drops.
pub mod Serve
use opt.Base.{
  ℕ, ◌*◌, List, [], ◌∷◌, Option, none, some, Bool, Bytes, Map, lookup, insert, delete_below,
  is_some, ltb, ◌==◌, if◌then◌else◌,
}
use opt.Authority.Types.{Katzenpost, Document}
use opt.Authority.State.{State, add64, sub64}
use opt.Authority.Schedule.{generation_deadline}

-- epochtime.Now(): the epoch, the time since it began, and the time that is left.
pub record Now : Type 0 where
  pub epoch : ℕ
  pub elapsed : ℕ
  pub till : ℕ

-- The results of documentForEpoch; the last is the error of an epoch far ahead.
pub data Served : Type 0 where
  document : Bytes → Served
  marshal_failed gone not_yet invalid_epoch : Served

-- The reply to GetConsensus.
pub data Reply : Type 0 where
  consensus_ok : Bytes → Reply
  consensus_gone consensus_not_found : Reply

module _ (k : Katzenpost) (period : ℕ) where
  abbrev marshalled : Option Bytes → Served
  marshalled none = marshal_failed
  marshalled (some raw) = document raw

  unfoldable pub document_for_epoch : Now → ℕ → State → Served
  unfolding generation_deadline
  document_for_epoch now epoch s = elim (lookup epoch s.documents) [
    | some d ↦ marshalled (k.marshal_certificate d)
    | none ↦
        if epoch == now.epoch
        then gone
        else if epoch == add64 now.epoch 1
        then (if ltb (generation_deadline period) now.elapsed then gone else not_yet)
        else if ltb epoch now.epoch
        then gone
        else invalid_epoch
  ]

  abbrev reply : Served → Reply
  reply (document raw) = consensus_ok raw
  reply gone = consensus_gone
  reply _ = consensus_not_found

  unfoldable pub on_get_consensus : Now → ℕ → State → Reply
  unfolding document_for_epoch
  on_get_consensus now epoch s = reply (document_for_epoch now epoch s)

-- The part of zkpki_backgroundFetchConsensus that runs with the lock held, once the document has
-- come from the appchain.
unfoldable pub set_local_document : Katzenpost → ℕ → Document → State → State
set_local_document k epoch doc s = elim (lookup epoch s.documents) [
  | some _ ↦ s
  | none ↦ elim (k.sign_document doc) [
    | none ↦ s
    | some signed ↦ record s { documents = insert epoch signed s.documents }
  ]
]

abbrev pub preserve_for_past_epochs : ℕ
preserve_for_past_epochs = 3

unfoldable pub prune_documents : ℕ → State → State
prune_documents now s =
    let cmp_epoch = sub64 now preserve_for_past_epochs in
    record s {
      documents = delete_below cmp_epoch s.documents;
      descriptors = delete_below cmp_epoch s.descriptors;
      votes = delete_below cmp_epoch s.votes;
      certificates = delete_below cmp_epoch s.certificates;
      myconsensus = delete_below cmp_epoch s.myconsensus;
    }
