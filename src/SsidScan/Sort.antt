-- ===== src/SsidScan/Sort.antt =====
-- ssid_scan_sort_by_rssi orders the observations and loses none.
use waxwing.Common.{
  ℕ, ◌+◌, ◌≡◌, refl, arith, List, [], ◌∷◌, Bool, true, false, if◌then◌else◌, Bool-cases, inl, inr,
}
use waxwing.Common.{All}
use waxwing.Common.Int.{ℤ, pos, negsuc, lt_ℤ}
use waxwing.SsidScan.{SsidObservation, shift, put_back, sort_loop, ssid_scan_sort_by_rssi}

-- No element is weaker than one behind it.
abbrev pub Descending : List SsidObservation → Type 0
Descending [] = Unit {0}
Descending (o ∷ obs) = All (λ q. lt_ℤ o.rssi q.rssi ≡ false) obs × Descending obs

-- No element is stronger than one behind it.
abbrev Ascending : List SsidObservation → Type 0
Ascending [] = Unit {0}
Ascending (o ∷ obs) = All (λ q. lt_ℤ q.rssi o.rssi ≡ false) obs × Ascending obs

lt_ℤ-asym : (a b : ℤ) → lt_ℤ a b ≡ true → lt_ℤ b a ≡ false
lt_ℤ-asym (pos a) (pos b) h = ground arith
lt_ℤ-asym (pos a) (negsuc b) h = cc
lt_ℤ-asym (negsuc a) (pos b) h = refl
lt_ℤ-asym (negsuc a) (negsuc b) h = ground arith

lt_ℤ-trans : (a b c : ℤ) → lt_ℤ b a ≡ false → lt_ℤ c b ≡ false → lt_ℤ c a ≡ false
lt_ℤ-trans (pos a) (pos b) (pos c) h k = ground arith
lt_ℤ-trans (pos a) (pos b) (negsuc c) h k = cc
lt_ℤ-trans (pos a) (negsuc b) (pos c) h k = cc
lt_ℤ-trans (pos a) (negsuc b) (negsuc c) h k = cc
lt_ℤ-trans (negsuc a) (pos b) (pos c) h k = refl
lt_ℤ-trans (negsuc a) (pos b) (negsuc c) h k = cc
lt_ℤ-trans (negsuc a) (negsuc b) (pos c) h k = refl
lt_ℤ-trans (negsuc a) (negsuc b) (negsuc c) h k = ground arith

-- How many observations pass a test.
abbrev pub count_of : (SsidObservation → Bool) → List SsidObservation → ℕ
count_of test [] = 0
count_of test (o ∷ obs) = (if test o then 1 else 0) + count_of test obs

module _ (test : SsidObservation → Bool) where
  count-shift :
      (key : SsidObservation) (before : List SsidObservation)
      → count_of test (shift key before) ≡ (if test key then 1 else 0) + count_of test before
  unfolding shift
  count-shift key [] = refl
  count-shift key (o ∷ before) = elim (Bool-cases (lt_ℤ o.rssi key.rssi)) [
    | inl b ↦ rw (shift, b) (omega (arith, count-shift key before))
    | inr b ↦ rw (shift, b) refl
  ]

  count-put_back :
      (before after : List SsidObservation)
      → count_of test (put_back before after) ≡ count_of test before + count_of test after
  count-put_back [] after = omega arith
  count-put_back (o ∷ before) after = omega (arith, count-put_back before (o ∷ after))

  count-sort_loop :
      (before after : List SsidObservation)
      → count_of test (sort_loop before after) ≡ count_of test before + count_of test after
  unfolding sort_loop
  count-sort_loop before [] = count-put_back before []
  count-sort_loop before (key ∷ after) =
      omega (arith, count-sort_loop (shift key before) after, count-shift key before)

All-shift :
    (P : SsidObservation → Type 0) (key : SsidObservation) (before : List SsidObservation)
    → P key
    → All P before
    → All P (shift key before)
unfolding shift
All-shift P key [] h k = (h, tt)
All-shift P key (o ∷ before) h (k, ks) = elim (Bool-cases (lt_ℤ o.rssi key.rssi)) [
  | inl b ↦ rw (shift, b) (k, All-shift P key before h ks)
  | inr b ↦ rw (shift, b) (h, (k, ks))
]

All-weaken :
    {P Q : SsidObservation → Type 0} (obs : List SsidObservation)
    → ((o : SsidObservation) → P o → Q o)
    → All P obs
    → All Q obs
All-weaken [] f h = tt
All-weaken {P = P} {Q = Q} (o ∷ obs) f (h, hs) = (f o h, All-weaken {P = P} {Q = Q} obs f hs)

shift-Ascending :
    (key : SsidObservation) (before : List SsidObservation)
    → Ascending before
    → Ascending (shift key before)
unfolding shift
shift-Ascending key [] h = (tt, tt)
shift-Ascending key (o ∷ before) (low, h) = elim (Bool-cases (lt_ℤ o.rssi key.rssi)) [
  | inl b ↦
      rw (shift, b)
        (
          All-shift (λ q. lt_ℤ q.rssi o.rssi ≡ false) key before (lt_ℤ-asym o.rssi key.rssi b) low,
          shift-Ascending key before h,
        )
  | inr b ↦
      rw (shift, b)
        (
          (
            b,
            All-weaken {P = λ q. lt_ℤ q.rssi o.rssi ≡ false} {Q = λ q. lt_ℤ q.rssi key.rssi ≡ false}
                before (λ q k. lt_ℤ-trans key.rssi o.rssi q.rssi b k) low,
          ),
          (low, h),
        )
]

abbrev Above : List SsidObservation → List SsidObservation → Type 0
Above before after = All (λ o. All (λ q. lt_ℤ o.rssi q.rssi ≡ false) after) before

Above-cons :
    (o : SsidObservation) (before after : List SsidObservation)
    → All (λ q. lt_ℤ q.rssi o.rssi ≡ false) before
    → Above before after
    → Above before (o ∷ after)
Above-cons o [] after low h = tt
Above-cons o (p ∷ before) after (k, low) (ks, h) = ((k, ks), Above-cons o before after low h)

Above-nil : (before : List SsidObservation) → Above before []
Above-nil [] = tt
Above-nil (o ∷ before) = (tt, Above-nil before)

put_back-Descending :
    (before after : List SsidObservation)
    → Ascending before
    → Descending after
    → Above before after
    → Descending (put_back before after)
put_back-Descending [] after asc desc above = desc
put_back-Descending (o ∷ before) after (low, asc) desc (above_o, above) =
    put_back-Descending before (o ∷ after) asc (above_o, desc) (Above-cons o before after low above)

sort_loop-Descending :
    (before after : List SsidObservation) → Ascending before → Descending (sort_loop before after)
unfolding sort_loop
sort_loop-Descending before [] h = put_back-Descending before [] h tt (Above-nil before)
sort_loop-Descending before (key ∷ after) h =
    sort_loop-Descending (shift key before) after (shift-Ascending key before h)

-- The sorted table has no observation before a stronger one, and it is a rearrangement: as many of its
-- observations pass any test as before.
pub sort_by_rssi-Descending :
    (obs : List SsidObservation) (test : SsidObservation → Bool)
    → Descending (ssid_scan_sort_by_rssi obs)
      × (count_of test (ssid_scan_sort_by_rssi obs) ≡ count_of test obs)
unfolding ssid_scan_sort_by_rssi
sort_by_rssi-Descending obs test =
    (sort_loop-Descending [] obs tt, omega (arith, count-sort_loop test [] obs))
