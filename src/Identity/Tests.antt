-- ===== src/Identity/Tests.antt =====
-- Tests of identity.c's model over an empty medium with one blob, and witnesses.
use waxwing.Common.{
  ℕ, ◌≡◌, refl, subst, arith, [], ◌∷◌, ◌++◌, true, false, some, none, take, replicate,
}
use waxwing.Common.{length, length-append, length-take, length-replicate}
use mathlib.Core.Option.{some-injective}
use waxwing.Common.Bytes.{Bytes}
use waxwing.Filestore.{Filestore, IsFilestore}
use waxwing.HalCrypto.{HalCrypto}
use waxwing.Identity.{
  Identity, waxwing_identity_load_or_generate, generate_fresh, load_identity, load_blob, save_blob,
}
use waxwing.Identity.{serialize_blob}
use waxwing.Common.{All, zero, suc, ◌<◌}
use waxwing.Common.Bytes.{IsByte}
use waxwing.Common.Text.{codes}
use waxwing.Identity.Names.{
  waxwing_identity_bytes_to_hex, waxwing_identity_tpk_to_base64url, populate_derived_fields,
}
use waxwing.Identity.Decode.{hex_decode, base64url_decode, decode-populate_derived_fields}
use waxwing.Identity.Stable.{load_or_generate-pair, load_or_generate-again}

-- A medium that remembers the last write.
abbrev last_write : Filestore
last_write = record {
  Disk = Bytes;
  fs_system_read = λ disk blob buf_size. some (take buf_size disk);
  fs_system_write = λ disk blob data'. (data', true);
}

last_write-IsFilestore : IsFilestore last_write
last_write-IsFilestore = record { read-write = λ disk blob data' buf_size e. refl }

-- The key is the seed, filled up or cut to 32 bytes.
abbrev toy_crypto : HalCrypto
toy_crypto = record {
  hal_ed25519_derive_pub = λ seed. some (take 32 (seed ++ replicate 32 0));
  hal_ed25519_sign = λ seed message. none;
  hal_ed25519_verify = λ pub_key message sig. false;
}

derived_size :
    (seed pub_key : Bytes)
    → toy_crypto.hal_ed25519_derive_pub seed ≡ some pub_key
    → length pub_key ≡ 32
derived_size seed pub_key e =
    subst (λ k. length k ≡ 32) (some-injective _ _ e)
      (omega (
        arith,
        length-take 32 (seed ++ replicate 32 0),
        length-append seed (replicate 32 0),
        length-replicate {A = ℕ} 32 0,
      ))

abbrev seed_one : Bytes
seed_one = replicate 32 1

random_size : (seed : Bytes) → some seed_one ≡ some seed → length seed ≡ 32
random_size seed e = subst (λ s. length s ≡ 32) (some-injective _ _ e) refl

abbrev identity_one : Identity
identity_one = record { seed = seed_one; pub_key = seed_one }

abbrev stored_one : Bytes
stored_one = 87 ∷ 88 ∷ 73 ∷ 68 ∷ 1 ∷ (seed_one ++ seed_one)

first_start :
    waxwing_identity_load_or_generate last_write toy_crypto [] (some seed_one)
    ≡ some (identity_one, (stored_one, true))
unfolding waxwing_identity_load_or_generate generate_fresh load_identity load_blob save_blob
    serialize_blob
first_start = refl

load_or_generate-pair_example : toy_crypto.hal_ed25519_derive_pub seed_one ≡ some seed_one
load_or_generate-pair_example =
    load_or_generate-pair last_write toy_crypto [] (some seed_one) identity_one (stored_one, true)
      first_start

load_or_generate-again_example :
    waxwing_identity_load_or_generate last_write toy_crypto stored_one none
    ≡ some (identity_one, (stored_one, true))
load_or_generate-again_example =
    load_or_generate-again last_write toy_crypto [] (some seed_one) identity_one stored_one none
      last_write-IsFilestore random_size derived_size first_start

abbrev first_letters : Bytes
first_letters = 65 ∷ 81 ∷ 69 ∷ 66 ∷ []

base64url_one : take 4 (waxwing_identity_tpk_to_base64url seed_one) ≡ first_letters
unfolding waxwing_identity_tpk_to_base64url
base64url_one = refl

abbrev key_low : Bytes
key_low = 171 ∷ 205 ∷ 1 ∷ 239 ∷ replicate 28 255

abbrev identity_low : Identity
identity_low = record { seed = seed_one; pub_key = key_low }

node_name_low : (populate_derived_fields identity_low).node_name ≡ codes "WX:ABCD01EF"
unfolding populate_derived_fields waxwing_identity_bytes_to_hex
node_name_low = refl

replicate-IsByte : (n b : ℕ) → b < 256 → All IsByte (replicate n b)
replicate-IsByte zero b lt = tt
replicate-IsByte (suc n) b lt = (lt, replicate-IsByte n b lt)

key_low-IsByte : All IsByte key_low
key_low-IsByte = (
  omega arith,
  (omega arith, (omega arith, (omega arith, replicate-IsByte 28 255 (omega arith)))),
)

decode-populate_derived_fields_example :
    (hex_decode (populate_derived_fields identity_low).tpk_hex ≡ identity_low.pub_key)
    × ((hex_decode (populate_derived_fields identity_low).fingerprint ≡ take 4 identity_low.pub_key)
        × (base64url_decode (waxwing_identity_tpk_to_base64url identity_low.pub_key)
            ≡ identity_low.pub_key))
decode-populate_derived_fields_example = decode-populate_derived_fields identity_low key_low-IsByte
