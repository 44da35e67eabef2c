-- ===== src/Identity/Stable.antt =====
-- The identity of identity.c is a key pair, and it survives restarts.
use waxwing.Common.{ℕ, ◌≡◌, refl, ap, ◌∙◌, subst, arith, [], ◌++◌, Bool, true, Option, some}
use waxwing.Common.{
  length, length-append, take, drop, take-append, drop-append, append-nil, inl, inr,
}
use waxwing.Common.{>>=-eq-some, guard-some, Option-cases}
use mathlib.Core.Option.{some-injective}
use waxwing.Common.Bytes.{Bytes, bytes_eq, bytes_eq-true, bytes_eq_refl}
use waxwing.Filestore.{Filestore, IsFilestore, SystemDelete, IsSystemDelete, identity_bin}
use waxwing.Identity.{identity_blob_size, waxwing_identity_wipe}
use waxwing.HalCrypto.{HalCrypto}
use waxwing.Identity.{
  Identity, blob_has_valid_header, serialize_blob, parse_blob, load_blob, save_blob, load_identity,
}
use waxwing.Identity.{generate_fresh, waxwing_identity_load_or_generate, blob_header}

take-append_eq : (n : ℕ) (s rest : Bytes) → length s ≡ n → take n (s ++ rest) ≡ s
take-append_eq n s rest h = subst (λ k. take k (s ++ rest) ≡ s) h (take-append s rest)

drop-append_eq : (n : ℕ) (s rest : Bytes) → length s ≡ n → drop n (s ++ rest) ≡ rest
drop-append_eq n s rest h = subst (λ k. drop k (s ++ rest) ≡ rest) h (drop-append s rest)

take_exact : (n : ℕ) (s : Bytes) → length s ≡ n → take n s ≡ s
take_exact n s h = subst (λ bs. take n bs ≡ s) (append-nil s) (take-append_eq n s [] h)

parse-serialize_blob :
    (seed pub_key : Bytes)
    → length seed ≡ 32
    → length pub_key ≡ 32
    → parse_blob (serialize_blob (record { seed = seed; pub_key = pub_key }))
      ≡ record { seed = seed; pub_key = pub_key }
unfolding parse_blob serialize_blob
parse-serialize_blob seed pub_key h k =
    rw (take-append_eq 32 seed pub_key h, drop-append_eq 32 seed pub_key h, take_exact 32 pub_key k)
      refl

length-serialize_blob :
    (seed pub_key : Bytes)
    → length seed ≡ 32
    → length pub_key ≡ 32
    → length (serialize_blob (record { seed = seed; pub_key = pub_key })) ≡ 69
unfolding serialize_blob
length-serialize_blob seed pub_key h k = omega (arith, length-append seed pub_key)

valid-serialize_blob :
    (identity : Identity) → blob_has_valid_header (serialize_blob identity) ≡ true
unfolding blob_has_valid_header serialize_blob
valid-serialize_blob identity = bytes_eq_refl blob_header

module _ (fs : Filestore) (c : HalCrypto) where
  open c use {hal_ed25519_derive_pub}

  load_identity-pair :
      (disk : fs.Disk) (identity : Identity)
      → load_identity fs c disk ≡ some identity
      → hal_ed25519_derive_pub identity.seed ≡ some identity.pub_key
  unfolding load_identity
  load_identity-pair disk identity e =
      let (blob, e₁, e₂) = >>=-eq-some (load_blob fs c disk) _ e in
      let (valid, e₃) = guard-some (blob_has_valid_header blob) e₂ in
      let (expected, e₄, e₅) = >>=-eq-some (hal_ed25519_derive_pub (parse_blob blob).seed) _ e₃ in
      let (same, e₆) = guard-some (bytes_eq expected (parse_blob blob).pub_key) e₅ in
      subst (λ i. hal_ed25519_derive_pub i.seed ≡ some i.pub_key) (some-injective _ _ e₆)
        (e₄ ∙ ap some (bytes_eq-true expected (parse_blob blob).pub_key same))

  -- What was stored is loaded.
  load-save :
      (disk : fs.Disk) (seed pub_key : Bytes)
      → IsFilestore fs
      → length seed ≡ 32
      → length pub_key ≡ 32
      → hal_ed25519_derive_pub seed ≡ some pub_key
      → (save_blob fs c disk (serialize_blob (record { seed = seed; pub_key = pub_key }))).1 ≡ true
      → load_identity fs c
          (save_blob fs c disk (serialize_blob (record { seed = seed; pub_key = pub_key }))).0
        ≡ some (record { seed = seed; pub_key = pub_key })
  unfolding load_identity load_blob save_blob
  load-save disk seed pub_key ok h k pair saved =
      let identity : Identity = record { seed = seed; pub_key = pub_key } in
      rw
        (
          load_identity,
          load_blob,
          ok.read-write disk identity_bin (serialize_blob identity) 69 saved,
          take_exact 69 (serialize_blob identity) (length-serialize_blob seed pub_key h k),
          length-serialize_blob seed pub_key h k,
          valid-serialize_blob identity,
          parse-serialize_blob seed pub_key h k,
          pair,
          bytes_eq_refl pub_key,
        )
        refl

  -- The key of an identity that is returned, loaded or new, belongs to its seed.
  pub load_or_generate-pair :
      (disk : fs.Disk) (random : Option Bytes) (identity : Identity) (rest : fs.Disk × Bool)
      → waxwing_identity_load_or_generate fs c disk random ≡ some (identity, rest)
      → hal_ed25519_derive_pub identity.seed ≡ some identity.pub_key
  unfolding waxwing_identity_load_or_generate generate_fresh
  load_or_generate-pair disk random identity rest e =
      elim (Option-cases (load_identity fs c disk)) [
        | inl k ↦
            let (seed, e₁, e₂) =
              >>=-eq-some random _ (rw (waxwing_identity_load_or_generate, k) at e) in
            let (pub_key, e₃, e₄) = >>=-eq-some (hal_ed25519_derive_pub seed) _ e₂ in
            subst (λ r. hal_ed25519_derive_pub r.0.seed ≡ some r.0.pub_key) (some-injective _ _ e₄)
              e₃
        | inr (stored, k) ↦
            subst (λ r. hal_ed25519_derive_pub r.0.seed ≡ some r.0.pub_key)
              (some-injective _ _ (rw (waxwing_identity_load_or_generate, k) at e))
              (load_identity-pair disk stored k)
      ]

  -- An identity that is stored survives: a restart returns the same one, whatever the generator of
  -- random bytes gives then. Random bytes and derived keys have 32 bytes.
  pub load_or_generate-again :
      (disk : fs.Disk) (random : Option Bytes) (identity : Identity) (disk' : fs.Disk)
      (again : Option Bytes)
      → IsFilestore fs
      → ((seed : Bytes) → random ≡ some seed → length seed ≡ 32)
      → ((seed pub_key : Bytes) → hal_ed25519_derive_pub seed ≡ some pub_key → length pub_key ≡ 32)
      → waxwing_identity_load_or_generate fs c disk random ≡ some (identity, (disk', true))
      → waxwing_identity_load_or_generate fs c disk' again ≡ some (identity, (disk', true))
  unfolding waxwing_identity_load_or_generate generate_fresh
  load_or_generate-again disk random identity disk' again ok size_seed size_pub e =
      elim (Option-cases (load_identity fs c disk)) [
        | inl k ↦
            let (seed, e₁, e₂) =
              >>=-eq-some random _ (rw (waxwing_identity_load_or_generate, k) at e) in
            let (pub_key, e₃, e₄) = >>=-eq-some (hal_ed25519_derive_pub seed) _ e₂ in
            let made : Identity = record { seed = seed; pub_key = pub_key } in
            let eq = some-injective _ _ e₄ in
            let loaded =
              load-save disk seed pub_key ok (size_seed seed e₁) (size_pub seed pub_key e₃) e₃
                (ap (λ r. r.1.1) eq) in
            let here = subst (λ r. load_identity fs c r.1.0 ≡ some r.0) eq loaded in
            rw (waxwing_identity_load_or_generate, here) refl
        | inr (stored, k) ↦
            let eq = some-injective _ _ (rw (waxwing_identity_load_or_generate, k) at e) in
            let here = subst (λ r. load_identity fs c r.1.0 ≡ some r.0) eq k in
            rw (waxwing_identity_load_or_generate, here) refl
      ]

  -- After a wipe that the medium has carried out, the next start makes a new identity.
  load_or_generate-wipe :
      (del : SystemDelete fs) (disk : fs.Disk) (random : Option Bytes)
      → IsSystemDelete fs del
      → (del.fs_system_delete disk identity_bin).1 ≡ true
      → waxwing_identity_load_or_generate fs c (waxwing_identity_wipe fs c del disk) random
        ≡ generate_fresh fs c (waxwing_identity_wipe fs c del disk) random
  unfolding waxwing_identity_load_or_generate load_identity load_blob waxwing_identity_wipe
  load_or_generate-wipe del disk random ok deleted =
      rw
        (
          waxwing_identity_load_or_generate,
          load_identity,
          load_blob,
          waxwing_identity_wipe,
          ok.read-delete disk identity_bin identity_blob_size deleted,
        )
        refl
