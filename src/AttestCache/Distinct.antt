-- ===== src/AttestCache/Distinct.antt =====
-- attest_cache.c implements a queue of 64 different blobs.
use waxwing.Common.{◌≡◌, ◌≢◌, refl, ap, arith, List, [], ◌∷◌, ◌++◌, ltb, ◌==◌}
use waxwing.Common.{
  length, drop, true, false, if◌then◌else◌, Bool-cases, inl, inr, Bool, not, ne→==_false,
  le→ltb_false, ltb→lt,
}
use waxwing.Common.Bytes.{Bytes, bytes_eq, bytes_eq_refl}
use waxwing.Common.Int.{pos, negsuc}
use waxwing.Filestore.{Filestore}
use waxwing.BlobRing.{Ring, record_max, ring_append, ring_persist}
use waxwing.BlobRing.Contents.{IsRecord, contents}
use waxwing.BlobRing.Append.{contents-ring_append}
use waxwing.BlobRing.Queue.{push, push_free, push_full}
use waxwing.BlobRing.Restart.{
  IsStored, ring_append-IsStored, blank_ring-IsStored, contents-blank_ring,
}
use waxwing.AttestCache.{attest_cache_config, attest_cache_reset, attest_cache_write, write_result}
use waxwing.AttestCache.Present.{
  contains, attest_cache_config-IsConfig, blob_already_present-contains,
}

abbrev pub is_cacheable : Bytes → Bool
is_cacheable blob =
    if length blob == 0 then false else not (ltb (record_max attest_cache_config) (length blob))

-- No blob stands in the list twice.
abbrev pub Distinct : List Bytes → Type 0
Distinct [] = Unit {0}
Distinct (x ∷ xs) = (contains xs x ≡ false) × Distinct xs

contains-append :
    (xs : List Bytes) (b x : Bytes)
    → contains xs x ≡ false
    → bytes_eq b x ≡ false
    → contains (xs ++ (b ∷ [])) x ≡ false
unfolding contains
contains-append [] b x h ne = rw ne refl
contains-append (y ∷ ys) b x h ne = ground (arith, contains-append ys b x)

bytes_eq_sym : (a b : Bytes) → bytes_eq a b ≡ false → bytes_eq b a ≡ false
unfolding bytes_eq
bytes_eq_sym [] [] h = h
bytes_eq_sym [] (b ∷ bs) h = refl
bytes_eq_sym (a ∷ as') [] h = refl
bytes_eq_sym (a ∷ as') (b ∷ bs) h = ground (arith, bytes_eq_sym as' bs)

Distinct-append :
    (xs : List Bytes) (b : Bytes) → Distinct xs → contains xs b ≡ false → Distinct (xs ++ (b ∷ []))
unfolding contains
Distinct-append [] b h ne = (refl, tt)
Distinct-append (x ∷ xs) b (hx, h) ne = elim (Bool-cases (bytes_eq x b)) [
  | inl e ↦ absurd (cc)
  | inr e ↦
      (contains-append xs b x hx (bytes_eq_sym x b e), Distinct-append xs b h (ground (arith)))
]

Distinct-push :
    (q : List Bytes) (b : Bytes) → Distinct q → contains q b ≡ false → Distinct (push 64 q b)
unfolding push contains
Distinct-push [] b h ne = (refl, tt)
Distinct-push (x ∷ q) b (hx, h) ne = elim (Bool-cases (ltb (length (x ∷ q)) 64)) [
  | inl e ↦
      rw (push_free 64 (x ∷ q) b (ltb→lt (length (x ∷ q)) 64 e))
        (Distinct-append (x ∷ q) b (hx, h) ne)
  | inr e ↦ rw (push_full 64 (x ∷ q) b (ground arith)) (Distinct-append q b h (ground arith))
]

contains-last : (xs : List Bytes) (b : Bytes) → contains (xs ++ (b ∷ [])) b ≡ true
unfolding contains
contains-last [] b = rw (bytes_eq_refl b) refl
contains-last (x ∷ xs) b = ground (arith, contains-last xs b)

contains-push : (q : List Bytes) (b : Bytes) → contains (push 64 q b) b ≡ true
unfolding push
contains-push q b = ground (arith, contains-last q b, contains-last (drop 1 q) b)

-- What the cache promises: a blob that is there already changes nothing.
abbrev pub cached : List Bytes → Bytes → List Bytes
cached q b = if is_cacheable b then (if contains q b then q else push 64 q b) else q

is_cacheable-IsRecord :
    (blob : Bytes) → is_cacheable blob ≡ true → IsRecord attest_cache_config blob
is_cacheable-IsRecord blob h = record { not_empty = ground arith; fits = ground arith }

module _ (fs : Filestore) where
  open fs use {Disk}

  module _ (r : Ring) (disk : Disk) (blob : Bytes) where
    write_fitting :
        IsStored attest_cache_config r
        → IsRecord attest_cache_config blob
        → attest_cache_write fs r disk blob ≡ (
            if contains (contents attest_cache_config r) blob then (r, (disk, pos 0)) else (
              ring_append attest_cache_config r blob,
              write_result (
                  ring_persist attest_cache_config fs
                    (ring_append attest_cache_config r blob)
                    disk),
            ))
    unfolding attest_cache_write
    write_fitting wf h =
        rw
          (
            attest_cache_write,
            blob_already_present-contains r blob wf h,
            wf.filled.ring.initialized,
            ne→==_false (length blob) 0 (omega (arith, h.not_empty)),
            le→ltb_false 198 (length blob) h.fits,
          )
          refl

    write_refused :
        is_cacheable blob ≡ false → attest_cache_write fs r disk blob ≡ (r, (disk, negsuc 0))
    unfolding attest_cache_write
    write_refused h = ground arith

    -- On a well-formed cache, a write of a blob that is empty, larger than 198 bytes or already among the records keeps the records; any other blob is pushed onto the queue of at most 64.
    pub contents-attest_cache_write :
        IsStored attest_cache_config r
        → contents attest_cache_config (attest_cache_write fs r disk blob).0
          ≡ cached (contents attest_cache_config r) blob
    contents-attest_cache_write wf = elim (Bool-cases (is_cacheable blob)) [
      | inr e ↦ rw (write_refused e, e) refl
      | inl e ↦
          let h : IsRecord attest_cache_config blob = is_cacheable-IsRecord blob e in
          elim (Bool-cases (contains (contents attest_cache_config r) blob)) [
            | inl f ↦ rw (write_fitting wf h, e, f) refl
            | inr f ↦
                rw (write_fitting wf h, e, f)
                  (contents-ring_append attest_cache_config r blob attest_cache_config-IsConfig
                    wf.filled h)
          ]
    ]

    -- A write keeps the cache well formed, whatever its result.
    pub attest_cache_write-IsStored :
        IsStored attest_cache_config r
        → IsStored attest_cache_config (attest_cache_write fs r disk blob).0
    attest_cache_write-IsStored wf = elim (Bool-cases (is_cacheable blob)) [
      | inr e ↦ rw (write_refused e) wf
      | inl e ↦
          let h : IsRecord attest_cache_config blob = is_cacheable-IsRecord blob e in
          elim (Bool-cases (contains (contents attest_cache_config r) blob)) [
            | inl f ↦ rw (write_fitting wf h, f) wf
            | inr f ↦
                rw (write_fitting wf h, f)
                  (ring_append-IsStored attest_cache_config r blob attest_cache_config-IsConfig wf
                    h)
          ]
    ]

    -- If a write to a well-formed cache returns 0 or 1, the blob is among the records afterwards.
    pub attest_cache_write-contains :
        IsStored attest_cache_config r
        → (attest_cache_write fs r disk blob).1.1 ≢ negsuc 0
        → contains (contents attest_cache_config (attest_cache_write fs r disk blob).0) blob ≡ true
    attest_cache_write-contains wf ok = elim (Bool-cases (is_cacheable blob)) [
      | inr e ↦ absurd (ok (ap (λ t. t.1.1) (write_refused e)))
      | inl e ↦
          rw (contents-attest_cache_write wf, e)
            (ground (arith, contains-push (contents attest_cache_config r) blob))
    ]

  -- A run of calls of `attest_cache_write`.
  unfoldable pub write_all : Ring → Disk → List Bytes → Ring × Disk
  write_all r disk [] = (r, disk)
  write_all r disk (b ∷ bs) =
      let (r', (disk', result)) = attest_cache_write fs r disk b in write_all r' disk' bs

  Distinct-cached : (q : List Bytes) (b : Bytes) → Distinct q → Distinct (cached q b)
  Distinct-cached q b h = elim (Bool-cases (is_cacheable b)) [
    | inr e ↦ rw e h
    | inl e ↦ elim (Bool-cases (contains q b)) [
      | inl f ↦ rw (e, f) h
      | inr f ↦ rw (e, f) (Distinct-push q b h f)
    ]
  ]

  write_all-Distinct :
      (r : Ring) (disk : Disk) (blobs : List Bytes)
      → IsStored attest_cache_config r
      → Distinct (contents attest_cache_config r)
      → Distinct (contents attest_cache_config (write_all r disk blobs).0)
  unfolding write_all
  write_all-Distinct r disk [] wf h = h
  write_all-Distinct r disk (b ∷ bs) wf h =
      write_all-Distinct (attest_cache_write fs r disk b).0 (attest_cache_write fs r disk b).1.0 bs
        (attest_cache_write-IsStored r disk b wf)
        (rw (contents-attest_cache_write r disk b wf)
          (Distinct-cached (contents attest_cache_config r) b h))

  -- After any run of writes to the emptied cache, no blob is among its records twice.
  pub reset-write_all-Distinct :
      (disk : Disk) (blobs : List Bytes)
      → Distinct (contents attest_cache_config (write_all attest_cache_reset disk blobs).0)
  unfolding attest_cache_reset
  reset-write_all-Distinct disk blobs =
      write_all-Distinct attest_cache_reset disk blobs
        (blank_ring-IsStored attest_cache_config attest_cache_config-IsConfig)
        (rw (contents-blank_ring attest_cache_config attest_cache_config-IsConfig) tt)
