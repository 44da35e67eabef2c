-- ===== src/SsidScan/Tests.antt =====
-- Tests of ssid_scan.c's model on three access points, and witnesses.
use waxwing.Common.{ℕ, ◌≡◌, refl, arith, List, [], ◌∷◌, ◌==◌, replicate}
use waxwing.Common.Int.{negsuc}
use waxwing.SsidScan.{
  SsidObservation, ssid_scan_sort_by_rssi, ssid_scan_add, ssid_scan_bssid_is_random, sort_loop,
  shift,
}
use waxwing.SsidScan.Sort.{Descending, count_of, sort_by_rssi-Descending}
use waxwing.SsidScan.Table.{IsTable, ssid_scan_add-IsTable}

abbrev seen : ℕ → ℕ → SsidObservation
seen n signal = record {
  bssid = 4 ∷ replicate 5 n;
  ssid = 97 ∷ [];
  rssi = negsuc signal;
  channel = 6;
}

abbrev three : List SsidObservation
three = seen 1 80 ∷ seen 2 40 ∷ seen 3 60 ∷ []

three-sorted : ssid_scan_sort_by_rssi three ≡ seen 2 40 ∷ seen 3 60 ∷ seen 1 80 ∷ []
unfolding ssid_scan_sort_by_rssi sort_loop shift
three-sorted = refl

sort_by_rssi-Descending_example :
    Descending (ssid_scan_sort_by_rssi three)
    × (count_of (λ o. o.channel == 6) (ssid_scan_sort_by_rssi three)
        ≡ count_of (λ o. o.channel == 6) three)
sort_by_rssi-Descending_example = sort_by_rssi-Descending three (λ o. o.channel == 6)

three-IsTable : IsTable three
unfolding ssid_scan_bssid_is_random
three-IsTable =
    (omega arith, ((refl, omega arith), ((refl, omega arith), ((refl, omega arith), tt))))

ssid_scan_add-IsTable_example :
    IsTable (ssid_scan_add three (8 ∷ replicate 5 9) (replicate 40 98) (negsuc 50) 11).0
ssid_scan_add-IsTable_example =
    ssid_scan_add-IsTable three (8 ∷ replicate 5 9) (replicate 40 98) (negsuc 50) 11 three-IsTable
