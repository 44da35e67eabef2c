-- ===== src/SsidScan/Table.antt =====
-- What the table of ssid_scan.c holds.
use waxwing.Common.{ℕ, suc, ◌≤◌, ◌<◌, ◌≡◌, arith, List, [], ◌∷◌, false}
use waxwing.Common.{
  Bool-cases, Option-cases, inl, inr, All, All-append, length, length-append, length-set,
  length-take,
}
use waxwing.Common.{ltb, ltb→lt, set, get_or, take, zero}
use waxwing.Common.Int.{ℤ, lt_ℤ}
use waxwing.Common.Bytes.{Bytes}
use waxwing.SsidScan.{
  SsidObservation, zero_observation, ssid_scan_bssid_is_random, find_bssid, weakest_slot,
}
use waxwing.SsidScan.{add_new, merged, ssid_scan_add}

-- An observation that the table may hold: its address names a place, and its name fits the array.
abbrev pub IsKept : SsidObservation → Type 0
IsKept o = (ssid_scan_bssid_is_random o.bssid ≡ false) × (length o.ssid ≤ 32)

abbrev pub IsTable : List SsidObservation → Type 0
IsTable obs = (length obs ≤ 8) × All IsKept obs

All-set :
    (obs : List SsidObservation) (i : ℕ) (o : SsidObservation)
    → (i < length obs → IsKept o)
    → All IsKept obs
    → All IsKept (set obs i o)
All-set [] i o k h = tt
All-set (x ∷ obs) zero o k (h, hs) = (k (omega arith), hs)
All-set (x ∷ obs) (suc i) o k (h, hs) = (h, All-set obs i o (λ lt. k (omega arith)) hs)

All-get_or :
    (obs : List SsidObservation) (i : ℕ) (d : SsidObservation)
    → i < length obs
    → All IsKept obs
    → IsKept (get_or obs i d)
All-get_or [] i d lt h = absurd (omega arith)
All-get_or (x ∷ obs) zero d lt (h, hs) = h
All-get_or (x ∷ obs) (suc i) d lt (h, hs) = All-get_or obs i d (omega arith) hs

add_new-IsTable :
    (obs : List SsidObservation) (o : SsidObservation)
    → IsKept o
    → IsTable obs
    → IsTable (add_new obs o).0
unfolding add_new
add_new-IsTable obs o k (h, hs) = elim (Bool-cases (ltb (length obs) 8)) [
  | inl b ↦
      rw (add_new, b)
        (
          omega (arith, length-append obs (o ∷ []), ltb→lt _ _ b),
          All-append IsKept obs (o ∷ []) hs (k, tt),
        )
  | inr b ↦ elim (Bool-cases (lt_ℤ (get_or obs (weakest_slot obs) zero_observation).rssi o.rssi)) [
    | inl c ↦
        rw (add_new, b, c)
          (
            omega (arith, length-set obs (weakest_slot obs) o),
            All-set obs (weakest_slot obs) o (λ lt. k) hs,
          )
    | inr c ↦ rw (add_new, b, c) (h, hs)
  ]
]

-- Whatever is added, the table keeps at most eight observations, none of an address that is made up at
-- random, and each with a name of at most 32 bytes.
pub ssid_scan_add-IsTable :
    (obs : List SsidObservation) (bssid ssid : Bytes) (rssi : ℤ) (channel : ℕ)
    → IsTable obs
    → IsTable (ssid_scan_add obs bssid ssid rssi channel).0
unfolding ssid_scan_add
ssid_scan_add-IsTable obs bssid ssid rssi channel (h, hs) =
    elim (Bool-cases (ssid_scan_bssid_is_random bssid)) [
      | inl r ↦ rw (ssid_scan_add, r) (h, hs)
      | inr r ↦ elim (Option-cases (find_bssid obs bssid)) [
        | inl e ↦
            let o : SsidObservation = record {
              bssid = bssid;
              ssid = take 32 ssid;
              rssi = rssi;
              channel = channel;
            } in
            rw (ssid_scan_add, r, e)
              (add_new-IsTable obs o (r, omega (arith, length-take 32 ssid)) (h, hs))
        | inr (i, e) ↦
            let o : SsidObservation = merged (get_or obs i zero_observation) rssi channel in
            rw (ssid_scan_add, r, e)
              (
                omega (arith, length-set obs i o),
                All-set obs i o (λ lt. All-get_or obs i zero_observation lt hs) hs,
              )
      ]
    ]
