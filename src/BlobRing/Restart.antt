-- ===== src/BlobRing/Restart.antt =====
-- What a ring persisted, the next start loads.
use waxwing.Common.{
  ℕ, zero, suc, ◌+◌, ◌*◌, ◌%◌, ◌≡◌, ◌≢◌, refl, ap, ap₂, sym, subst, ◌∙◌, arith, List, [], ◌∷◌, ◌++◌,
}
use waxwing.Common.{
  ltb, ◌==◌, ==_refl, true, ◌&&◌, if◌then◌else◌, length, take, drop, set, get_or, length-append,
  Bool-cases, inl, inr, lt→ltb, le→leb, All, take-append, drop-append, get_or-set_ne, replicate,
  length-replicate,
}
use waxwing.Common.Bytes.{Bytes}
use waxwing.Common.Index.{All-set, take_all, get_or-append_left}
use waxwing.Filestore.{Filestore, IsFilestore}
use waxwing.BlobRing.{
  RingConfig, Ring, next_slot_get, used_count_get, used_bumped, filled_slot, ring_append,
  split_slots, join_slots, ring_buffer, ring_buffer_bytes, header_valid, load_ring, blank_ring,
  ring_version, ring_init, ring_persist,
}
use waxwing.BlobRing.Append.{ring_append-IsFilled}
use waxwing.BlobRing.Contents.{
  IsConfig, IsRing, IsFilled, IsRecord, length-filled_slot, contents, records,
}

-- The header of a file of this kind.
pub record IsHeader (c : RingConfig) (h : Bytes) : Type 0 where
  pub magic0 : get_or h 0 0 ≡ c.magic0
  pub magic1 : get_or h 1 0 ≡ c.magic1
  pub magic2 : get_or h 2 0 ≡ c.magic2
  pub magic3 : get_or h 3 0 ≡ c.magic3
  pub version : get_or h 4 0 ≡ ring_version

-- A ring whose buffer a start would accept.
pub record IsStored (c : RingConfig) (r : Ring) : Type 0 where
  pub filled : IsFilled c r
  pub header : IsHeader c r.header
  pub slots : All (λ s. length s ≡ c.slot_bytes) r.slots

module _ (size : ℕ) where
  length-join_slots :
      (ss : List Bytes) → All (λ s. length s ≡ size) ss → length (join_slots ss) ≡ length ss * size
  unfolding join_slots
  length-join_slots [] h = omega arith
  length-join_slots (s ∷ ss) (h, hs) =
      omega (arith, length-append s (join_slots ss), length-join_slots ss hs)

  split-join_slots :
      (ss : List Bytes)
      → All (λ s. length s ≡ size) ss
      → split_slots size (length ss) (join_slots ss) ≡ ss
  unfolding split_slots join_slots
  split-join_slots [] h = refl
  split-join_slots (s ∷ ss) (h, hs) =
      ap₂ (λ x xs. x ∷ xs)
        (subst (λ n. take n (s ++ join_slots ss) ≡ s) h (take-append s (join_slots ss)))
        (ap (split_slots size (length ss)) (
            subst (λ n. drop n (s ++ join_slots ss) ≡ join_slots ss) h
              (drop-append s (join_slots ss)))
          ∙ split-join_slots ss hs)

module _ (c : RingConfig) where
  used_bumped_other : (h : Bytes) (i : ℕ) → i ≢ 7 → get_or (used_bumped c h) i 0 ≡ get_or h i 0
  unfolding used_bumped
  used_bumped_other h i ne = elim (Bool-cases (ltb (get_or h 7 0) c.cap)) [
    | inl e ↦ rw e (get_or-set_ne h ((get_or h 7 0 + 1) % 256) 0 (omega arith))
    | inr e ↦ rw e refl
  ]

  header_other :
      (h : Bytes) (v i : ℕ) → i ≢ 7 → i ≢ 6 → get_or (used_bumped c (set h 6 v)) i 0 ≡ get_or h i 0
  header_other h v i n7 n6 = used_bumped_other (set h 6 v) i n7 ∙ get_or-set_ne h v 0 (omega arith)

  header_valid-IsHeader :
      (r : Ring) → IsRing c r → IsHeader c r.header → header_valid c r.header ≡ true
  unfolding header_valid
  header_valid-IsHeader r wf h =
      rw
        (
          h.magic0,
          h.magic1,
          h.magic2,
          h.magic3,
          h.version,
          ==_refl c.magic0,
          ==_refl c.magic1,
          ==_refl c.magic2,
          ==_refl c.magic3,
          lt→ltb (next_slot_get r) c.cap wf.next_slot,
          le→leb (used_count_get r) c.cap wf.used_count,
        )
        refl

  -- The header keeps its magic and its version, and the slots their size.
  pub ring_append-IsStored :
      (r : Ring) (blob : Bytes)
      → IsConfig c
      → IsStored c r
      → IsRecord c blob
      → IsStored c (ring_append c r blob)
  unfolding ring_append
  ring_append-IsStored r blob ok wf h =
      let v : ℕ = (next_slot_get r + 1) % c.cap % 256 in
      record {
        filled = ring_append-IsFilled c r blob ok wf.filled h;
        header = record {
          magic0 = header_other r.header v 0 (omega arith) (omega arith) ∙ wf.header.magic0;
          magic1 = header_other r.header v 1 (omega arith) (omega arith) ∙ wf.header.magic1;
          magic2 = header_other r.header v 2 (omega arith) (omega arith) ∙ wf.header.magic2;
          magic3 = header_other r.header v 3 (omega arith) (omega arith) ∙ wf.header.magic3;
          version = header_other r.header v 4 (omega arith) (omega arith) ∙ wf.header.version;
        };
        slots =
            All-set (λ s. length s ≡ c.slot_bytes) r.slots (next_slot_get r) (filled_slot c blob)
              wf.slots (length-filled_slot c blob ok h);
      }

  All-replicate {κ} : {A : Type 0} (P : A → Type κ) (n : ℕ) (a : A) → P a → All P (replicate n a)
  All-replicate P zero a h = tt
  All-replicate P (suc n) a h = (h, All-replicate P n a h)

  pub blank_ring-IsStored : IsConfig c → IsStored c (blank_ring c)
  unfolding blank_ring
  blank_ring-IsStored ok = record {
    filled = record {
      ring = record {
        initialized = refl;
        slot_count = length-replicate {A = Bytes} c.cap (replicate c.slot_bytes 0);
        next_slot = ok.cap_positive;
        used_count = omega arith;
      };
      header_length = refl;
      front = λ _. refl;
      live = tt;
    };
    header = record { magic0 = refl; magic1 = refl; magic2 = refl; magic3 = refl; version = refl };
    slots =
        All-replicate (λ s. length s ≡ c.slot_bytes) c.cap (replicate c.slot_bytes 0)
          (length-replicate {A = ℕ} c.slot_bytes 0);
  }

  pub contents-blank_ring : IsConfig c → contents c (blank_ring c) ≡ []
  unfolding blank_ring contents records
  contents-blank_ring ok = rw (lt→ltb 0 c.cap ok.cap_positive) refl

  length-ring_buffer : (r : Ring) → IsStored c r → length (ring_buffer r) ≡ ring_buffer_bytes c
  unfolding ring_buffer
  length-ring_buffer r wf =
      length-append r.header (join_slots r.slots)
      ∙ ap₂ (λ a b. a + b) wf.filled.header_length
          (length-join_slots c.slot_bytes r.slots wf.slots
            ∙ ap (λ n. n * c.slot_bytes) wf.filled.ring.slot_count)

  header_valid-append :
      (h rest : Bytes) → length h ≡ 16 → header_valid c (h ++ rest) ≡ header_valid c h
  unfolding header_valid
  header_valid-append h rest n =
      rw
        (
          get_or-append_left h rest 0 0 (omega arith),
          get_or-append_left h rest 1 0 (omega arith),
          get_or-append_left h rest 2 0 (omega arith),
          get_or-append_left h rest 3 0 (omega arith),
          get_or-append_left h rest 4 0 (omega arith),
          get_or-append_left h rest 6 0 (omega arith),
          get_or-append_left h rest 7 0 (omega arith),
        )
        refl

  -- The buffer of a stored ring passes the checks of a start.
  accepted :
      (r : Ring)
      → IsStored c r
      → ((length (ring_buffer r) == ring_buffer_bytes c) && header_valid c (ring_buffer r)) ≡ true
  unfolding ring_buffer
  accepted r wf =
      rw
        (
          length-ring_buffer r wf,
          ==_refl (ring_buffer_bytes c),
          header_valid-append r.header (join_slots r.slots) wf.filled.header_length,
        )
        (header_valid-IsHeader r wf.filled.ring wf.header)

  load-ring_buffer : (r : Ring) → IsStored c r → load_ring c (ring_buffer r) ≡ r
  unfolding load_ring ring_buffer
  load-ring_buffer r wf =
      let rest : Bytes = join_slots r.slots in
      let n : length r.header ≡ 16 = wf.filled.header_length in
      let header : take 16 (r.header ++ rest) ≡ r.header =
        subst (λ n. take n (r.header ++ rest) ≡ r.header) n (take-append r.header rest) in
      let behind : drop 16 (r.header ++ rest) ≡ rest =
        subst (λ n. drop n (r.header ++ rest) ≡ rest) n (drop-append r.header rest) in
      let back : split_slots c.slot_bytes c.cap rest ≡ r.slots =
        subst (λ n. split_slots c.slot_bytes n rest ≡ r.slots) wf.filled.ring.slot_count
          (split-join_slots c.slot_bytes r.slots wf.slots) in
      ap
        (λ b.
          if b
          then (record {
            initialized = true;
            header = take 16 (r.header ++ rest);
            slots = split_slots c.slot_bytes c.cap (drop 16 (r.header ++ rest));
          })
          else blank_ring c)
        (accepted r wf)
      ∙ (ap₂ (λ h ss. record { initialized = true; header = h; slots = ss }) header
            (ap (split_slots c.slot_bytes c.cap) behind ∙ back)
          ∙ ap (λ b. record { initialized = b; header = r.header; slots = r.slots })
              (sym wf.filled.ring.initialized))

  pub ring_init-ring_persist :
      (fs : Filestore) (r : Ring) (disk : fs.Disk)
      → IsFilestore fs
      → IsStored c r
      → (ring_persist c fs r disk).1 ≡ true
      → ring_init c fs (ring_persist c fs r disk).0 ≡ r
  unfolding ring_init ring_persist
  ring_init-ring_persist fs r disk ok wf persisted =
      rw
        (
          ring_init,
          ok.read-write disk c.blob_name (ring_buffer r) (ring_buffer_bytes c) persisted,
          take_all (ring_buffer_bytes c) (ring_buffer r) (omega (arith, length-ring_buffer r wf)),
        )
        (load-ring_buffer r wf)
