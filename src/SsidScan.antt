-- ===== src/SsidScan.antt =====
-- firmware/core/ssid_scan.h and firmware/core/ssid_scan.c: the table of the strongest access points
-- that a scan saw. The `count` first observations of the array are a list, and the network name is
-- the list of its `ssid_len` bytes; an observation that replaces another one has its own name.
pub mod Sort
pub mod Table
mod Tests
use waxwing.Common.{
  ℕ, zero, suc, ◌+◌, ◌/◌, ◌%◌, List, [], ◌∷◌, ◌++◌, ltb, ◌==◌, Bool, true, false, not, ◌||◌,
}
use waxwing.Common.{Option, none, some, if◌then◌else◌, length, take, set, get_or, ◌>>=◌}
use waxwing.Common.Int.{ℤ, pos, lt_ℤ}
use waxwing.Common.Bytes.{Bytes, bytes_eq}

abbrev pub ssid_scan_max : ℕ
ssid_scan_max = 8

abbrev pub ssid_scan_ssid_max : ℕ
ssid_scan_ssid_max = 32

-- `ssid_observation_t`
pub record SsidObservation : Type 0 where
  pub bssid : Bytes
  pub ssid : Bytes
  pub rssi : ℤ
  pub channel : ℕ

abbrev pub zero_observation : SsidObservation
zero_observation = record { bssid = []; ssid = []; rssi = pos 0; channel = 0 }

-- `(bssid[0] & 0x02) != 0`
unfoldable pub ssid_scan_bssid_is_random : Bytes → Bool
ssid_scan_bssid_is_random bssid = not (get_or bssid 0 0 / 2 % 2 == 0)

-- `none` is the C result -1.
unfoldable pub find_bssid : List SsidObservation → Bytes → Option ℕ
find_bssid [] bssid = none
find_bssid (o ∷ obs) bssid =
    let rest = find_bssid obs bssid in
    if bytes_eq o.bssid bssid then some 0 else (rest >>= λ i. some (suc i))

-- The loop at slot `i`, with the weakest signal so far and its slot.
unfoldable pub weakest_loop : List SsidObservation → ℕ → ℕ → ℤ → ℕ
weakest_loop [] i idx worst = idx
weakest_loop (o ∷ obs) i idx worst =
    let weaker = lt_ℤ o.rssi worst in
    weakest_loop obs (suc i) (if weaker then i else idx) (if weaker then o.rssi else worst)

unfoldable pub weakest_slot : List SsidObservation → ℕ
weakest_slot [] = 0
weakest_slot (o ∷ obs) = weakest_loop obs 1 0 o.rssi

-- An observation of an address that the table does not have. The flag is the C result.
unfoldable pub add_new : List SsidObservation → SsidObservation → List SsidObservation × Bool
add_new obs o =
    if ltb (length obs) ssid_scan_max
    then (obs ++ (o ∷ []), true)
    else if not (lt_ℤ (get_or obs (weakest_slot obs) zero_observation).rssi o.rssi)
    then (obs, false)
    else (set obs (weakest_slot obs) o, true)

abbrev pub merged : SsidObservation → ℤ → ℕ → SsidObservation
merged o rssi channel = record o { rssi = rssi; channel = channel }

unfoldable pub ssid_scan_add :
    List SsidObservation → Bytes → Bytes → ℤ → ℕ → List SsidObservation × Bool
ssid_scan_add obs bssid ssid rssi channel =
    if ssid_scan_bssid_is_random bssid then (obs, false) else elim (find_bssid obs bssid) [
      | some idx ↦ (set obs idx (merged (get_or obs idx zero_observation) rssi channel), true)
      | none ↦ add_new obs (record {
        bssid = bssid;
        ssid = take ssid_scan_ssid_max ssid;
        rssi = rssi;
        channel = channel;
      })
    ]

-- The inner loop: the observations before `key` in the array, the nearest first, are moved one slot
-- up while they are weaker.
unfoldable pub shift : SsidObservation → List SsidObservation → List SsidObservation
shift key [] = key ∷ []
shift key (o ∷ before) =
    let rest = shift key before in if lt_ℤ o.rssi key.rssi then o ∷ rest else key ∷ (o ∷ before)

-- The array, from the slots `before` (the nearest first) on.
abbrev pub put_back : List SsidObservation → List SsidObservation → List SsidObservation
put_back [] after = after
put_back (o ∷ before) after = put_back before (o ∷ after)

unfoldable pub sort_loop : List SsidObservation → List SsidObservation → List SsidObservation
sort_loop before [] = put_back before []
sort_loop before (key ∷ after) = sort_loop (shift key before) after

unfoldable pub ssid_scan_sort_by_rssi : List SsidObservation → List SsidObservation
ssid_scan_sort_by_rssi obs = sort_loop [] obs

-- The loop of `ssid_scan_bssids_differ`: some address of the first list is not in the second.
unfoldable pub some_missing : List SsidObservation → List SsidObservation → Bool
some_missing [] b = false
some_missing (o ∷ a) b = elim (find_bssid b o.bssid) [ none ↦ true | some i ↦ some_missing a b ]

unfoldable pub ssid_scan_bssids_differ : List SsidObservation → List SsidObservation → Bool
ssid_scan_bssids_differ a b = not (length a == length b) || some_missing a b
