-- ===== src/Filestore.antt =====
-- firmware/core/filestore.h: the system blobs, as the modules that persist something call them.
use waxwing.Common.{ℕ, ◌≡◌, Bool, true, Option, some, none, take}
use waxwing.Common.Bytes.{Bytes}

-- The names of the blobs that the modelled modules use.
pub data SystemBlob : Type 0 where
  identity_bin manifest_version_bin meeting_count_bin peer_ledger_bin : SystemBlob
  attest_self_bin attest_cache_bin encounters_bin : SystemBlob

-- What a port implements. `Disk` is the state of the medium; `none` of a read is -1, and the flag
-- of a write says whether the result was 0.
pub record Filestore : Type 1 where
  pub Disk : Type 0
  pub fs_system_read : Disk → SystemBlob → ℕ → Option Bytes
  pub fs_system_write : Disk → SystemBlob → Bytes → Disk × Bool

-- The documented behaviour: after a write that succeeded, a read gives the bytes that were written,
-- as far as they fit the reader's buffer.
pub record IsFilestore (fs : Filestore) : Type 0 where
  pub read-write :
      (disk : fs.Disk) (blob : SystemBlob) (data' : Bytes) (buf_size : ℕ)
      → (fs.fs_system_write disk blob data').1 ≡ true
      → fs.fs_system_read (fs.fs_system_write disk blob data').0 blob buf_size
        ≡ some (take buf_size data')

-- The call that deletes a system blob, on the same medium; the flag says whether the result was 0.
pub record SystemDelete (fs : Filestore) : Type 0 where
  pub fs_system_delete : fs.Disk → SystemBlob → fs.Disk × Bool

-- The documented behaviour: a blob that was deleted is not found.
pub record IsSystemDelete (fs : Filestore) (del : SystemDelete fs) : Type 0 where
  pub read-delete :
      (disk : fs.Disk) (blob : SystemBlob) (buf_size : ℕ)
      → (del.fs_system_delete disk blob).1 ≡ true
      → fs.fs_system_read (del.fs_system_delete disk blob).0 blob buf_size ≡ none
