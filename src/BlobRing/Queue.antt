-- ===== src/BlobRing/Queue.antt =====
-- What a ring promises: a queue that forgets its oldest entry when it is full, so that after any
-- number of entries it holds the last ones.
use waxwing.Common.{
  ℕ, zero, suc, ◌+◌, ◌-◌, ◌≤◌, ◌<◌, ◌≡◌, refl, ap, sym, ◌∙◌, arith, List, [], ◌∷◌, ◌++◌,
}
use waxwing.Common.{
  ltb, if◌then◌else◌, length, drop, length-append, length-drop, Bool-cases, lt→ltb, le→ltb_false,
  inl, inr,
}

module _ {ℓ} {A : Type ℓ} where
  unfoldable pub push : ℕ → List A → A → List A
  push cap q x = if ltb (length q) cap then q ++ (x ∷ []) else drop 1 q ++ (x ∷ [])

  pub push_free : (cap : ℕ) (q : List A) (x : A) → length q < cap → push cap q x ≡ q ++ (x ∷ [])
  unfolding push
  push_free cap q x h = rw (lt→ltb (length q) cap h) refl

  pub push_full :
      (cap : ℕ) (q : List A) (x : A) → cap ≤ length q → push cap q x ≡ drop 1 q ++ (x ∷ [])
  unfolding push
  push_full cap q x h = rw (le→ltb_false (length q) cap h) refl

  -- The last `cap` entries.
  unfoldable pub last_of : ℕ → List A → List A
  last_of cap xs = drop (length xs - cap) xs

  drop_append_left : (n : ℕ) (xs ys : List A) → n ≤ length xs → drop n (xs ++ ys) ≡ drop n xs ++ ys
  drop_append_left zero xs ys h = refl
  drop_append_left (suc n) [] ys h = absurd (omega arith)
  drop_append_left (suc n) (x ∷ xs) ys h = drop_append_left n xs ys (omega arith)

  drop_nil : (n : ℕ) → drop {A = A} n [] ≡ []
  drop_nil zero = refl
  drop_nil (suc n) = refl

  drop-drop : (n m : ℕ) (xs : List A) → drop n (drop m xs) ≡ drop (m + n) xs
  drop-drop n zero xs = ap (λ k. drop k xs) {x = n} {y = zero + n} (omega arith)
  drop-drop n (suc m) [] = drop_nil n ∙ sym (drop_nil (suc m + n))
  drop-drop n (suc m) (x ∷ xs) =
      drop-drop n m xs ∙ ap (λ k. drop k (x ∷ xs)) {x = suc (m + n)} {y = suc m + n} (omega arith)

  pub length-last_of :
      (cap : ℕ) (xs : List A) → length xs ≤ cap → length (last_of cap xs) ≡ length xs
  unfolding last_of
  length-last_of cap xs h = omega (arith, length-drop (length xs - cap) xs)

  pub push-last_of :
      (cap : ℕ) (xs : List A) (x : A)
      → 0 < cap
      → push cap (last_of cap xs) x ≡ last_of cap (xs ++ (x ∷ []))
  unfolding push last_of
  push-last_of cap xs x h =
      let n : length (drop (length xs - cap) xs) ≡ length xs - (length xs - cap) =
        length-drop (length xs - cap) xs in
      elim (Bool-cases (ltb (length (drop (length xs - cap) xs)) cap)) [
        | inl e ↦ rw e (
            sym (drop_append_left (length xs - cap) xs (x ∷ []) (omega arith))
            ∙ ap (λ k. drop k (xs ++ (x ∷ []))) (ground (arith, length-append xs (x ∷ []))))
        | inr e ↦ rw e (
            ap (λ l. l ++ (x ∷ [])) (drop-drop 1 (length xs - cap) xs)
            ∙ (sym (drop_append_left (length xs - cap + 1) xs (x ∷ []) (ground arith))
                ∙ ap (λ k. drop k (xs ++ (x ∷ []))) (ground (arith, length-append xs (x ∷ [])))))
      ]
