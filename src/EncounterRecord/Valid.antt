-- ===== src/EncounterRecord/Valid.antt =====
-- The records that the C structure can hold with version 1: fixed arrays at their lengths, at most
-- eight BSSIDs a side, and integers in the range of their types.
use waxwing.Common.{◌^◌, ◌≤◌, ◌<◌, ◌≡◌, List, length, All}
use waxwing.Common.Int.{IsInt32}
use waxwing.Common.Bytes.{Bytes}
use waxwing.EncounterRecord.{EncounterRecord}

abbrev pub IsBssids : List Bytes → Type 0
IsBssids bs = (length bs ≤ 8) × All (λ b. length b ≡ 6) bs

-- Well formed but for the version.
pub record Fits (rec : EncounterRecord) : Type 0 where
  pub pub_a : length rec.pub_a ≡ 32
  pub pub_b : length rec.pub_b ≡ 32
  pub meeting_count_a : rec.meeting_count_a < 2 ^ 64
  pub meeting_count_b : rec.meeting_count_b < 2 ^ 64
  pub rep_of_b_by_a : IsInt32 rec.rep_of_b_by_a
  pub rep_of_a_by_b : IsInt32 rec.rep_of_a_by_b
  pub bssids_a : IsBssids rec.bssids_a
  pub bssids_b : IsBssids rec.bssids_b
  pub nonce_a : length rec.nonce_a ≡ 16
  pub nonce_b : length rec.nonce_b ≡ 16
  pub tx_bytes_a_to_b_lifetime : rec.tx_bytes_a_to_b_lifetime < 2 ^ 64
  pub rx_bytes_a_from_b_lifetime : rec.rx_bytes_a_from_b_lifetime < 2 ^ 64
  pub tx_bytes_b_to_a_lifetime : rec.tx_bytes_b_to_a_lifetime < 2 ^ 64
  pub rx_bytes_b_from_a_lifetime : rec.rx_bytes_b_from_a_lifetime < 2 ^ 64
  pub file_count_a_from_b_lifetime : rec.file_count_a_from_b_lifetime < 2 ^ 64
  pub file_count_b_from_a_lifetime : rec.file_count_b_from_a_lifetime < 2 ^ 64
  pub sig_a : length rec.sig_a ≡ 64
  pub sig_b : length rec.sig_b ≡ 64

pub record IsWellFormed (rec : EncounterRecord) : Type 0 where
  pub version : rec.version ≡ 1
  pub fits : Fits rec
  pub open fits use *
