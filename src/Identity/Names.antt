-- ===== src/Identity/Names.antt =====
-- firmware/core/identity.c: the strings that are derived from the public key. A string is the list
-- of its characters, without the NUL.
use waxwing.Common.{ℕ, ◌+◌, ◌-◌, ◌*◌, ◌/◌, ◌%◌, [], ◌∷◌, ◌++◌, ◌&&◌, if◌then◌else◌, leb}
use waxwing.Common.{take, get_or}
use waxwing.Common.Bytes.{Bytes}
use waxwing.Common.Text.{codes}
use waxwing.Identity.{Identity}

abbrev pub hex_chars : Bytes
hex_chars = codes "0123456789abcdef"

abbrev pub hex_char : ℕ → ℕ
hex_char n = get_or hex_chars n 0

unfoldable pub waxwing_identity_bytes_to_hex : Bytes → Bytes
waxwing_identity_bytes_to_hex [] = []
waxwing_identity_bytes_to_hex (b ∷ bytes) =
    hex_char (b / 16 % 16) ∷ hex_char (b % 16) ∷ waxwing_identity_bytes_to_hex bytes

abbrev pub alphabet : Bytes
alphabet = codes "ABCDEFGHIJKLMNOPQRSTUVWXYZabcdefghijklmnopqrstuvwxyz0123456789-_"

abbrev pub letter : ℕ → ℕ
letter n = get_or alphabet n 0

-- Three bytes as one number.
abbrev pub joined : ℕ → ℕ → ℕ → ℕ
joined a b c = a * 65536 + b * 256 + c

-- The whole triples, then what is left behind them. The key has 32 bytes, which leaves two.
unfoldable pub waxwing_identity_tpk_to_base64url : Bytes → Bytes
waxwing_identity_tpk_to_base64url [] = []
waxwing_identity_tpk_to_base64url (a ∷ []) =
    letter (joined a 0 0 / 262144 % 64) ∷ letter (joined a 0 0 / 4096 % 64) ∷ []
waxwing_identity_tpk_to_base64url (a ∷ b ∷ []) =
    letter (joined a b 0 / 262144 % 64)
    ∷ letter (joined a b 0 / 4096 % 64)
    ∷ letter (joined a b 0 / 64 % 64)
    ∷ []
waxwing_identity_tpk_to_base64url (a ∷ b ∷ c ∷ rest) =
    letter (joined a b c / 262144 % 64)
    ∷ letter (joined a b c / 4096 % 64)
    ∷ letter (joined a b c / 64 % 64)
    ∷ letter (joined a b c % 64)
    ∷ waxwing_identity_tpk_to_base64url rest

-- `toupper`, in the C locale.
abbrev pub toupper : ℕ → ℕ
toupper ch = if leb 97 ch && leb ch 122 then ch - 32 else ch

abbrev pub upper : Bytes → Bytes
upper [] = []
upper (ch ∷ s) = toupper ch ∷ upper s

-- `waxwing_identity_t`, the derived fields.
pub record Derived : Type 0 where
  pub tpk_hex : Bytes
  pub fingerprint : Bytes
  pub node_name : Bytes

unfoldable pub populate_derived_fields : Identity → Derived
populate_derived_fields identity =
    let tpk_hex : Bytes = waxwing_identity_bytes_to_hex identity.pub_key in
    record {
      tpk_hex = tpk_hex;
      fingerprint = take 8 tpk_hex;
      node_name = codes "WX:" ++ upper (take 8 tpk_hex);
    }
