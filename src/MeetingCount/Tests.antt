-- ===== src/MeetingCount/Tests.antt =====
-- Tests of meeting_count.c's model over a medium with one blob, and witnesses.
use waxwing.Common.{[], ◌+◌, ◌-◌, ◌^◌, ◌≡◌, refl, arith, true, false, ◌⊎◌, min, some, take}
use waxwing.Common.Bytes.{Bytes}
use waxwing.Filestore.{Filestore, IsFilestore}
use waxwing.MeetingCount.{meeting_count_init, meeting_count_bump}
use waxwing.MeetingCount.Persist.{meeting_bump-init}

-- A medium that remembers the last write.
abbrev last_write : Filestore
last_write = record {
  Disk = Bytes;
  fs_system_read = λ disk blob buf_size. some (take buf_size disk);
  fs_system_write = λ disk blob data'. (data', true);
}

last_write-IsFilestore : IsFilestore last_write
last_write-IsFilestore = record { read-write = λ disk blob data' buf_size e. refl }

meeting_bump-init_example :
    ((meeting_count_bump last_write 299 []).0 ≡ min (299 + 1) (2 ^ 64 - 1))
    × (((meeting_count_bump last_write 299 []).1.1 ≡ false)
        ⊎ (meeting_count_init last_write (meeting_count_bump last_write 299 []).1.0
            ≡ min (299 + 1) (2 ^ 64 - 1)))
meeting_bump-init_example = meeting_bump-init last_write 299 [] last_write-IsFilestore (omega arith)
