-- ===== src/Authority/Agreement/EpochBytes.antt =====
-- epochToBytes and epochFromBytes.
use opt.Base.{ℕ, ◌^◌, ◌<◌, ◌++◌, ◌≡◌, arith, Bytes}
use opt.Authority.Upload.{epoch_from_bytes}
use opt.Authority.Agreement.{epoch_to_bytes}

-- An epoch is read back from its eight bytes, whatever bytes follow.
pub epoch_from_bytes-epoch_to_bytes :
    (e : ℕ) (rest : Bytes) → e < 2 ^ 64 → epoch_from_bytes (epoch_to_bytes e ++ rest) ≡ e
unfolding epoch_from_bytes epoch_to_bytes
epoch_from_bytes-epoch_to_bytes e rest h = omega arith
