-- ===== src/Common/Bytes.antt =====
-- C byte buffers. A pointer together with its end is the list of the bytes from the one to the
-- other, so `end - p` is `length p` and `p + n` is `drop n p`. `|` of bits that do not overlap is
-- written `+`, `x >> k` is `x / 2 ^ k`, and `(uint8_t)x` is `x % 256`.
use waxwing.Common.{ℕ, zero, suc, ◌+◌, ◌*◌, ◌/◌, ◌%◌, ◌<◌, ◌≡◌, refl, arith, ◌↔◌}
use waxwing.Common.{List, [], ◌∷◌, Bool, true, false, ◌&&◌, ◌==◌, ltb, if◌then◌else◌}

abbrev pub Bytes : Type 0
Bytes = List ℕ

abbrev pub IsByte : ℕ → Type 0
IsByte b = b < 256

-- `memcmp(a, b, n) == 0`, where the lists are the `n` bytes of each side.
unfoldable pub bytes_eq : Bytes → Bytes → Bool
bytes_eq [] [] = true
bytes_eq [] (b ∷ bs) = false
bytes_eq (a ∷ as') [] = false
bytes_eq (a ∷ as') (b ∷ bs) = (a == b) && bytes_eq as' bs

pub bytes_eq-true : (a b : Bytes) → bytes_eq a b ≡ true → a ≡ b
unfolding bytes_eq
bytes_eq-true [] [] h = refl
bytes_eq-true [] (b ∷ bs) h = cc
bytes_eq-true (a ∷ as') [] h = cc
bytes_eq-true (a ∷ as') (b ∷ bs) h = ground (arith, bytes_eq-true as' bs)

pub bytes_eq_refl : (a : Bytes) → bytes_eq a a ≡ true
unfolding bytes_eq
bytes_eq_refl [] = refl
bytes_eq_refl (a ∷ as') = ground (arith, bytes_eq_refl as')

pub bytes_eq_iff : (a b : Bytes) → (bytes_eq a b ≡ true) ↔ (a ≡ b)
bytes_eq_iff a b = (bytes_eq-true a b, λ e. cc (bytes_eq_refl a))

-- `memcmp(a, b, n) > 0`.
unfoldable pub bytes_gt : Bytes → Bytes → Bool
bytes_gt [] bs = false
bytes_gt (a ∷ as') [] = false
bytes_gt (a ∷ as') (b ∷ bs) = if a == b then bytes_gt as' bs else ltb b a

-- The low `n` bytes of `v`, least significant first.
unfoldable pub le_bytes : ℕ → ℕ → Bytes
le_bytes zero v = []
le_bytes (suc n) v = v % 256 ∷ le_bytes n (v / 256)

-- The number that little-endian bytes stand for.
unfoldable pub le_value : Bytes → ℕ
le_value [] = 0
le_value (b ∷ bs) = b + 256 * le_value bs
