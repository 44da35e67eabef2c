-- ===== src/MeetingCount/Persist.antt =====
-- The count of meeting_count.c over restarts.
use waxwing.Common.{
  ℕ, ◌+◌, ◌-◌, ◌^◌, ◌<◌, ◌≡◌, ◌∙◌, arith, false, min, some, take, ◌⊎◌, inl, inr, Bool-cases,
}
use waxwing.Common.Bytes.{le_bytes, le_value}
use waxwing.Filestore.{Filestore, IsFilestore, meeting_count_bin}
use waxwing.MeetingCount.{encode_le64, decode_le64, bumped, meeting_count_init, meeting_count_bump}

decode-encode : (v : ℕ) → v < 2 ^ 64 → decode_le64 (encode_le64 v) ≡ v
unfolding decode_le64 encode_le64 le_bytes le_value
decode-encode v h = omega arith

bumped-lt : (v : ℕ) → v < 2 ^ 64 → bumped v < 2 ^ 64
unfolding bumped
bumped-lt v h = ground arith

bumped-min : (v : ℕ) → v < 2 ^ 64 → bumped v ≡ min (v + 1) (2 ^ 64 - 1)
unfolding bumped
bumped-min v h = ground arith

read_back :
    (fs : Filestore) (disk : fs.Disk) (v : ℕ)
    → v < 2 ^ 64
    → fs.fs_system_read disk meeting_count_bin 9 ≡ some (take 9 (encode_le64 v))
    → meeting_count_init fs disk ≡ v
unfolding meeting_count_init encode_le64 le_bytes
read_back fs disk v h e = rw (meeting_count_init, e) (decode-encode v h)

-- A bump adds one to the count, up to the largest 64-bit number, whether or not it is persisted; and
-- either the medium reported a failure or a restart finds the new count.
pub meeting_bump-init :
    (fs : Filestore) (counter : ℕ) (disk : fs.Disk)
    → IsFilestore fs
    → counter < 2 ^ 64
    → ((meeting_count_bump fs counter disk).0 ≡ min (counter + 1) (2 ^ 64 - 1))
      × (((meeting_count_bump fs counter disk).1.1 ≡ false)
          ⊎ (meeting_count_init fs (meeting_count_bump fs counter disk).1.0
              ≡ min (counter + 1) (2 ^ 64 - 1)))
unfolding meeting_count_bump
meeting_bump-init fs counter disk ok h = (
  bumped-min counter h,
  elim (Bool-cases (fs.fs_system_write disk meeting_count_bin (encode_le64 (bumped counter))).1) [
    | inl persisted ↦ inr (
        read_back fs _ (bumped counter) (bumped-lt counter h)
          (ok.read-write disk meeting_count_bin (encode_le64 (bumped counter)) 9 persisted)
        ∙ bumped-min counter h)
    | inr failed ↦ inl failed
  ],
)
