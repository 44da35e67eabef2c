-- ===== src/MeetingCount.antt =====
-- firmware/core/meeting_count.h and firmware/core/meeting_count.c: the persisted count of
-- encounters. `g_counter` is the number that the functions take and give back.
pub mod Persist
mod Tests
use waxwing.Common.{
  ℕ, ◌+◌, ◌-◌, ◌^◌, ltb, ◌==◌, Option, none, some, if◌then◌else◌, length, take, Bool,
}
use waxwing.Common.Bytes.{Bytes, le_bytes, le_value}
use waxwing.Filestore.{Filestore, meeting_count_bin}

abbrev pub counter_blob_size : ℕ
counter_blob_size = 8

unfoldable pub encode_le64 : ℕ → Bytes
encode_le64 v = le_bytes 8 v

unfoldable pub decode_le64 : Bytes → ℕ
decode_le64 buf = le_value (take 8 buf)

-- `if (g_counter < UINT64_MAX) g_counter++;`
unfoldable pub bumped : ℕ → ℕ
bumped counter = if ltb counter (2 ^ 64 - 1) then counter + 1 else counter

module _ (fs : Filestore) where
  open fs use {Disk, fs_system_read, fs_system_write}

  unfoldable pub meeting_count_init : Disk → ℕ
  meeting_count_init disk = elim (fs_system_read disk meeting_count_bin (counter_blob_size + 1)) [
    | none ↦ 0
    | some buf ↦ if length buf == counter_blob_size then decode_le64 buf else 0
  ]

  -- The new count, the medium after it, and whether the count was persisted.
  unfoldable pub meeting_count_bump : ℕ → Disk → ℕ × (Disk × Bool)
  meeting_count_bump counter disk =
      (bumped counter, fs_system_write disk meeting_count_bin (encode_le64 (bumped counter)))
