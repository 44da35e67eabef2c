-- ===== src/Commands/Fitting.antt =====
-- firmware/core/commands.c: the two passes over stored records agree, and a page holds the leading
-- records that fit behind those that earlier pages returned.
use Prim.Native.String.{String}
use waxwing.Common.{
  ℕ, zero, suc, ◌+◌, ◌-◌, ◌%◌, ◌^◌, ◌≤◌, ◌<◌, ◌≡◌, refl, ap, sym, ◌∙◌, arith, List, [], ◌∷◌, ◌++◌,
  ltb, leb, Bool, true, false,
}
use waxwing.Common.{
  if◌then◌else◌, length, take, drop, length-take, Bool-cases, inl, inr, lt→ltb, le→leb, append-nil,
  append_assoc,
}
use waxwing.Common.Bytes.{Bytes}
use waxwing.Common.{length-append, All}
use waxwing.Commands.Files.{cbor_arg_size}
use waxwing.Commands.Size.{length-byte_str}
use waxwing.Cbor.Encode.{
  put_strs, cborencode_byte_str, cborencode_map_header, cborencode_array_header, cborencode_bool,
}
use waxwing.Commands.{text}
use waxwing.BlobRing.Walk.{walk, after, walk-cons}
use waxwing.Commands.Pages.{
  PageWalk, page_walk, page_response, next_page, outer_size, count_record, emit_record,
}

-- The bytes that a record takes in a response.
abbrev pub shipped_size : Bytes → ℕ
shipped_size x = length (cborencode_byte_str x)

-- The number of leading records that fit the budget, as byte strings one after the other.
unfoldable pub fitting : ℕ → ℕ → List Bytes → ℕ
fitting budget used [] = 0
fitting budget used (x ∷ xs) =
    let more = fitting budget (used + shipped_size x) xs in
    if ltb budget (used + shipped_size x) then 0 else suc more

-- The records whose length takes two bytes at most.
abbrev pub AreShort : List Bytes → Type 0
AreShort xs = All (λ x. length x < 65536) xs

outer_size-byte_str : (x : Bytes) → length x < 65536 → outer_size (length x) ≡ shipped_size x
unfolding outer_size cbor_arg_size
outer_size-byte_str x h = ground (arith, length-byte_str x (omega arith))

-- The callbacks over the records that a command returns.
abbrev pub count_cb : ℕ → PageWalk → Bytes → PageWalk × Bool
count_cb budget w rec = count_record budget w (length rec)

ltb-suc : (a b : ℕ) → ltb a b ≡ ltb (suc a) (suc b)
ltb-suc a b = ground arith

lt→leb_false : (a b : ℕ) → b < a → leb a b ≡ false
lt→leb_false a b h = ground arith

abbrev counting : ℕ → ℕ → ℕ → PageWalk
counting skip used n = record {
  skip_remaining = skip;
  used = used;
  to_emit = n;
  emitted = 0;
  p = [];
  overflow = false;
}

abbrev emitting : ℕ → ℕ → ℕ → Bytes → PageWalk
emitting skip total k p = record {
  skip_remaining = skip;
  used = 0;
  to_emit = total;
  emitted = k;
  p = p;
  overflow = false;
}

-- What is behind the callback's result.
pub step :
    (cb : PageWalk → Bytes → PageWalk × Bool) (x : Bytes) (xs : List Bytes) (w : PageWalk)
    (seen : ℕ) {res : PageWalk × Bool}
    → cb w x ≡ res
    → (walk cb (x ∷ xs) w seen).0 ≡ (after cb xs seen res).0
step cb x xs w seen e = ap (λ t. t.0) (walk-cons cb x xs w seen ∙ ap (after cb xs seen) e)

module _ (budget : ℕ) where
  count_skip :
      (skip used n len : ℕ)
      → count_record budget (counting (suc skip) used n) len ≡ (counting skip used n, false)
  unfolding count_record
  count_skip skip used n len =
      rw (lt→ltb 0 (suc skip) (omega arith)) (ap (λ k. (counting k used n, false)) (omega arith))

  count_over :
      (used n : ℕ) (x : Bytes)
      → length x < 65536
      → ltb budget (used + shipped_size x) ≡ true
      → count_record budget (counting 0 used n) (length x)
        ≡ (record (counting 0 used n) { overflow = true }, true)
  unfolding count_record
  count_over used n x short e = rw (outer_size-byte_str x short, e) refl

  count_fit :
      (used n : ℕ) (x : Bytes)
      → length x < 65536
      → ltb budget (used + shipped_size x) ≡ false
      → count_record budget (counting 0 used n) (length x)
        ≡ (counting 0 (used + shipped_size x) (n + 1), false)
  unfolding count_record
  count_fit used n x short e = rw (outer_size-byte_str x short, e) refl

  -- Both results of the counting pass.
  count-fitting :
      (xs : List Bytes) (skip used n seen : ℕ)
      → AreShort xs
      → ((walk (count_cb budget) xs (counting skip used n) seen).0.to_emit
          ≡ n + fitting budget used (drop skip xs))
        × ((walk (count_cb budget) xs (counting skip used n) seen).0.overflow
            ≡ ltb (fitting budget used (drop skip xs)) (length (drop skip xs)))
  unfolding walk fitting
  count-fitting [] zero used n seen h = (omega arith, refl)
  count-fitting [] (suc skip) used n seen h = (omega arith, refl)
  count-fitting (x ∷ xs) (suc skip) used n seen (short, h) =
      rw
        (step (count_cb budget) x xs (counting (suc skip) used n) seen
          (count_skip skip used n (length x)))
        (count-fitting xs skip used n (seen + 1) h)
  count-fitting (x ∷ xs) zero used n seen (short, h) =
      elim (Bool-cases (ltb budget (used + shipped_size x))) [
        | inl e ↦
            rw
              (
                step (count_cb budget) x xs (counting 0 used n) seen (count_over used n x short e),
                fitting,
                e,
              )
              (omega arith, sym (lt→ltb 0 (suc (length xs)) (omega arith)))
        | inr e ↦
            let rest = count-fitting xs 0 (used + shipped_size x) (n + 1) (seen + 1) h in
            rw
              (
                step (count_cb budget) x xs (counting 0 used n) seen (count_fit used n x short e),
                fitting,
                e,
              )
              (
                rest.0 ∙ omega arith,
                rest.1 ∙ ltb-suc (fitting budget (used + shipped_size x) xs) (length xs),
              )
      ]

emit_skip :
    (skip total k : ℕ) (p rec : Bytes)
    → emit_record (emitting (suc skip) total k p) rec ≡ (emitting skip total k p, false)
unfolding emit_record
emit_skip skip total k p rec =
    rw (lt→ltb 0 (suc skip) (omega arith)) (ap (λ n. (emitting n total k p, false)) (omega arith))

emit_stop :
    (total k : ℕ) (p rec : Bytes)
    → total ≤ k
    → emit_record (emitting 0 total k p) rec ≡ (emitting 0 total k p, true)
unfolding emit_record
emit_stop total k p rec h = rw (le→leb total k h) refl

emit_put :
    (total k : ℕ) (p rec : Bytes)
    → k < total
    → emit_record (emitting 0 total k p) rec
      ≡ (emitting 0 total (k + 1) (p ++ cborencode_byte_str rec), false)
unfolding emit_record
emit_put total k p rec h = rw (lt→leb_false total k h) refl

put_strs-take_nil : (n : ℕ) → put_strs (take n []) ≡ []
unfolding put_strs
put_strs-take_nil zero = refl
put_strs-take_nil (suc n) = refl

-- The emitting pass writes the counted records.
emit-put_strs :
    (xs : List Bytes) (skip total k : ℕ) (p : Bytes) (seen : ℕ)
    → (walk emit_record xs (emitting skip total k p) seen).0.p
      ≡ p ++ put_strs (take (total - k) (drop skip xs))
unfolding walk put_strs
emit-put_strs [] zero total k p seen =
    sym (ap (λ bs. p ++ bs) (put_strs-take_nil (total - k)) ∙ append-nil p)
emit-put_strs [] (suc skip) total k p seen =
    sym (ap (λ bs. p ++ bs) (put_strs-take_nil (total - k)) ∙ append-nil p)
emit-put_strs (x ∷ xs) (suc skip) total k p seen =
    rw (step emit_record x xs (emitting (suc skip) total k p) seen (emit_skip skip total k p x))
      (emit-put_strs xs skip total k p (seen + 1))
emit-put_strs (x ∷ xs) zero total k p seen = elim (Bool-cases (leb total k)) [
  | inl e ↦
      let no_more : total - k ≡ 0 = ground arith in
      rw (step emit_record x xs (emitting 0 total k p) seen (emit_stop total k p x (ground arith)))
        (sym (ap (λ n. p ++ put_strs (take n (x ∷ xs))) no_more ∙ append-nil p))
  | inr e ↦
      let one_more : total - k ≡ suc (total - (k + 1)) = ground arith in
      rw (step emit_record x xs (emitting 0 total k p) seen (emit_put total k p x (ground arith))) (
        emit-put_strs xs 0 total (k + 1) (p ++ cborencode_byte_str x) (seen + 1)
        ∙ (append_assoc p (cborencode_byte_str x) (put_strs (take (total - (k + 1)) xs))
            ∙ sym (ap (λ n. p ++ put_strs (take n (x ∷ xs))) one_more)))
]

fitting-le : (budget used : ℕ) (xs : List Bytes) → fitting budget used xs ≤ length xs
unfolding fitting
fitting-le budget used [] = omega arith
fitting-le budget used (x ∷ xs) = ground (arith, fitting-le budget (used + shipped_size x) xs)

-- They do fit.
pub fitting-fits :
    (budget used : ℕ) (xs : List Bytes)
    → used ≤ budget
    → used + length (put_strs (take (fitting budget used xs) xs)) ≤ budget
unfolding fitting put_strs
fitting-fits budget used [] h = omega arith
fitting-fits budget used (x ∷ xs) h = elim (Bool-cases (ltb budget (used + shipped_size x))) [
  | inl e ↦ rw (fitting, e) (omega arith)
  | inr e ↦
      let n : ℕ = fitting budget (used + shipped_size x) xs in
      rw (fitting, e)
        (omega (
          arith,
          le_of_ltb_false budget (used + shipped_size x) e,
          fitting-fits budget (used + shipped_size x) xs
              (le_of_ltb_false budget (used + shipped_size x) e),
          length-append (cborencode_byte_str x) (put_strs (take n xs)),
        ))
]
  where
    le_of_ltb_false : (a b : ℕ) → ltb a b ≡ false → b ≤ a
    le_of_ltb_false a b e = ground arith

-- A page of `shipped` records.
unfoldable pub page_bytes : String → Bool → List Bytes → ℕ → Bytes
page_bytes key more shipped next_offset =
    cborencode_map_header (if more then 3 else 2)
    ++ (text "ok"
        ++ (cborencode_bool true
            ++ (text key
                ++ (cborencode_array_header (length shipped)
                    ++ (put_strs shipped ++ next_page more next_offset)))))

-- The page of the records `xs` behind the first `offset` of them.
abbrev pub page_of : String → ℕ → ℕ → List Bytes → Bytes
page_of key budget offset xs =
    let n : ℕ = fitting budget 0 (drop offset xs) in
    page_bytes key (ltb n (length (drop offset xs))) (take n (drop offset xs))
      ((offset + n) % 2 ^ 32)

-- Two passes over a list of records give the page of the leading records that fit.
pub page_response-passes :
    (key : String) (budget offset : ℕ) (xs : List Bytes)
    → AreShort xs
    → page_response key offset
        (walk (count_cb budget) xs (page_walk offset 0) 0).0
        (walk emit_record xs
          (page_walk offset (walk (count_cb budget) xs (page_walk offset 0) 0).0.to_emit)
          0).0
      ≡ page_of key budget offset xs
unfolding page_response page_bytes
page_response-passes key budget offset xs short =
    let (emits, more) = count-fitting budget xs offset 0 0 0 short in
    let n : ℕ = fitting budget 0 (drop offset xs) in
    let len : length (take n (drop offset xs)) ≡ n =
      length-take n (drop offset xs) ∙ omega (arith, fitting-le budget 0 (drop offset xs)) in
    let emitted : (walk (count_cb budget) xs (page_walk offset 0) 0).0.to_emit
        ≡ fitting budget 0 (drop offset xs) =
      emits ∙ omega arith in
    let written : (walk emit_record xs (emitting offset n 0 []) 0).0.p
        ≡ put_strs (take n (drop offset xs)) =
      emit-put_strs xs offset n 0 [] 0
      ∙ ap (λ m. put_strs (take m (drop offset xs))) (omega arith) in
    rw (emitted, more, len, written) refl
