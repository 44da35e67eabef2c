-- ===== src/BlobRing.antt =====
-- The ring of length-prefixed records that firmware/core/attestations.c, attest_cache.c and
-- encounters.c each keep as one blob, over the constants in which the three files differ. The buffer
-- `g_buf` is its header and the list of its slots.
pub mod Contents
pub mod Order
pub mod Walk
pub mod Counters
pub mod Append
pub mod Queue
pub mod Restart
use waxwing.Common.{
  ℕ, zero, suc, ◌+◌, ◌-◌, ◌*◌, ◌/◌, ◌%◌, ◌^◌, List, [], ◌∷◌, ◌++◌, ltb, leb, ◌==◌, Bool, true,
  false,
}
use waxwing.Common.{
  ◌&&◌, ◌||◌, Option, none, some, if◌then◌else◌, length, take, drop, set, get_or, replicate,
}
use waxwing.Common.Bytes.{Bytes}
use waxwing.Filestore.{Filestore, SystemBlob}

-- The `#define`s of one of the files: its capacity, the size of a slot, the magic and the blob.
pub record RingConfig : Type 0 where
  pub cap : ℕ
  pub slot_bytes : ℕ
  pub magic0 : ℕ
  pub magic1 : ℕ
  pub magic2 : ℕ
  pub magic3 : ℕ
  pub blob_name : SystemBlob

abbrev pub ring_header_bytes : ℕ
ring_header_bytes = 16

abbrev pub ring_version : ℕ
ring_version = 1

-- `g_initialized` and the two parts of `g_buf`.
pub record Ring : Type 0 where
  pub initialized : Bool
  pub header : Bytes
  pub slots : List Bytes

-- The two length bytes of a slot.
unfoldable pub slot_record_len : Bytes → ℕ
slot_record_len p = get_or p 0 0 + get_or p 1 0 * 2 ^ 8

-- The record of a slot, as the callbacks get it.
unfoldable pub slot_record : Bytes → Bytes
slot_record p = take (slot_record_len p) (drop 2 p)

abbrev pub next_slot_get : Ring → ℕ
next_slot_get r = get_or r.header 6 0

abbrev pub used_count_get : Ring → ℕ
used_count_get r = get_or r.header 7 0

-- The `n` slots that follow each other at `p`.
unfoldable pub split_slots : ℕ → ℕ → Bytes → List Bytes
split_slots size zero p = []
split_slots size (suc n) p = take size p ∷ split_slots size n (drop size p)

unfoldable pub join_slots : List Bytes → Bytes
join_slots [] = []
join_slots (s ∷ ss) = s ++ join_slots ss

-- The buffer as the file store sees it.
unfoldable pub ring_buffer : Ring → Bytes
ring_buffer r = r.header ++ join_slots r.slots

module _ (c : RingConfig) where
  abbrev pub ring_buffer_bytes : ℕ
  ring_buffer_bytes = ring_header_bytes + c.cap * c.slot_bytes

  -- The room for a record in a slot.
  abbrev pub record_max : ℕ
  record_max = c.slot_bytes - 2

  abbrev pub blank_header : Bytes
  blank_header = c.magic0 ∷ c.magic1 ∷ c.magic2 ∷ c.magic3 ∷ ring_version ∷ replicate 11 0

  -- The blank buffer, once a module is initialized.
  unfoldable pub blank_ring : Ring
  blank_ring = record {
    initialized = true;
    header = blank_header;
    slots = replicate c.cap (replicate c.slot_bytes 0);
  }

  unfoldable pub header_valid : Bytes → Bool
  header_valid h =
      (get_or h 0 0 == c.magic0)
      && ((get_or h 1 0 == c.magic1)
          && ((get_or h 2 0 == c.magic2)
              && ((get_or h 3 0 == c.magic3)
                  && ((get_or h 4 0 == ring_version)
                      && (ltb (get_or h 6 0) c.cap && leb (get_or h 7 0) c.cap)))))

  unfoldable pub load_ring : Bytes → Ring
  load_ring buf =
      if (length buf == ring_buffer_bytes) && header_valid buf
      then (record {
        initialized = true;
        header = take ring_header_bytes buf;
        slots = split_slots c.slot_bytes c.cap (drop ring_header_bytes buf);
      })
      else blank_ring

  -- A slot that holds the record: its length, its bytes and zeros.
  unfoldable pub filled_slot : Bytes → Bytes
  filled_slot blob =
      length blob % 256 ∷ length blob / 2 ^ 8 % 256 ∷ blob ++ replicate (record_max - length blob) 0

  -- `used_count_set` of one more, while the ring is not full.
  unfoldable pub used_bumped : Bytes → Bytes
  used_bumped h = if ltb (get_or h 7 0) c.cap then set h 7 ((get_or h 7 0 + 1) % 256) else h

  -- The buffer after the record went to the next slot.
  unfoldable pub ring_append : Ring → Bytes → Ring
  ring_append r blob = record r {
    header = used_bumped (set r.header 6 ((next_slot_get r + 1) % c.cap % 256));
    slots = set r.slots (next_slot_get r) (filled_slot blob);
  }

  -- The guard of the walks: a slot without a record that fits is passed over.
  abbrev pub is_record_len : ℕ → Bool
  is_record_len len = if len == 0 then false else leb len record_max

  -- Where the oldest record stands.
  unfoldable pub oldest_slot : Ring → ℕ
  oldest_slot r = if ltb (used_count_get r) c.cap then 0 else next_slot_get r

  abbrev pub slot_at : Ring → ℕ → Bytes
  slot_at r i = get_or r.slots (i % c.cap % 256) []

  module _ {ℓ} {S : Type ℓ} (cb : S → Bytes → S × Bool) where
    -- The loop at `k`, with `n` rounds left; `start + k` is `i`. The callback's flag stops it.
    unfoldable pub for_each_loop : Ring → ℕ → ℕ → S → ℕ → S × ℕ
    for_each_loop r zero i s seen = (s, seen)
    for_each_loop r (suc n) i s seen = elim (is_record_len (slot_record_len (slot_at r i))) [
      | false ↦ for_each_loop r n (suc i) s seen
      | true ↦
          let (s', stop) = cb s (slot_record (slot_at r i)) in
          elim stop [ true ↦ (s', seen + 1) | false ↦ for_each_loop r n (suc i) s' (seen + 1) ]
    ]

    -- The state that the callbacks left behind, and the records they saw.
    unfoldable pub ring_for_each : Ring → S → S × ℕ
    ring_for_each r s =
        if r.initialized then for_each_loop r (used_count_get r) (oldest_slot r) s 0 else (s, 0)

  unfoldable pub ring_count : Ring → ℕ
  ring_count r = if r.initialized then used_count_get r else 0

  module _ (fs : Filestore) where
    open fs use {Disk, fs_system_read, fs_system_write}

    unfoldable pub ring_init : Disk → Ring
    ring_init disk = elim (fs_system_read disk c.blob_name ring_buffer_bytes) [
      | none ↦ blank_ring
      | some buf ↦ load_ring buf
    ]

    unfoldable pub ring_persist : Ring → Disk → Disk × Bool
    ring_persist r disk = fs_system_write disk c.blob_name (ring_buffer r)
