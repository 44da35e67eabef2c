-- ===== src/Encounters/Addresses.antt =====
-- When the addresses of a scan are those that were recorded, as the throttle of encounters.c tests it.
use waxwing.Common.{ℕ, ◌<◌, ◌≡◌, refl, arith, List, [], ◌∷◌, All}
use waxwing.Common.{length, leb, ◌==◌, not, ◌&&◌, ◌||◌, Bool, true, false}
use waxwing.Common.{Bool-cases, inl, inr, ◌↔◌, sym}
use waxwing.Common.Bytes.{Bytes, bytes_eq, bytes_eq-true, bytes_eq_refl}
use mathlib.Core.List.{Memᴰ}
use mathlib.Core.List.Memᴰ
use waxwing.SsidScan.{SsidObservation}
use waxwing.Encounters.{scan_has, bssids}

-- Every address is one of the scan's.
unfoldable pub all_seen : List SsidObservation → List Bytes → Bool
all_seen scan [] = true
all_seen scan (b ∷ bs) = scan_has scan b && all_seen scan bs

-- A scan of as many addresses as were recorded, among them all that were recorded.
abbrev pub same_addresses : List SsidObservation → List SsidObservation → Bool
same_addresses scan recorded = (length recorded == length scan) && all_seen scan (bssids recorded)

scan_has-Memᴰ :
    (scan : List SsidObservation) (b : Bytes) → (scan_has scan b ≡ true) ↔ Memᴰ b (bssids scan)
unfolding scan_has
scan_has-Memᴰ [] b = (λ e. cc, λ m. absurd (Memᴰ.not-nil m))
scan_has-Memᴰ (o ∷ scan) b = elim (Bool-cases (bytes_eq o.bssid b)) [
  | inl e ↦ (λ h. Memᴰ.head (sym (bytes_eq-true o.bssid b e)), λ m. rw e refl)
  | inr e ↦ (
    λ h. Memᴰ.tail ((scan_has-Memᴰ scan b).0 (rw e at h)),
    λ m. elim (Memᴰ.cases_cons m) [
      | inl same ↦ cc (rw same at e, bytes_eq_refl o.bssid)
      | inr more ↦ rw e ((scan_has-Memᴰ scan b).1 more)
    ],
  )
]

all_seen-All :
    (scan : List SsidObservation) (bs : List Bytes)
    → (all_seen scan bs ≡ true) ↔ All (λ b. Memᴰ b (bssids scan)) bs
unfolding all_seen
all_seen-All scan [] = (λ e. tt, λ h. refl)
all_seen-All scan (b ∷ bs) = elim (Bool-cases (scan_has scan b)) [
  | inl e ↦ (
    λ h. ((scan_has-Memᴰ scan b).0 e, (all_seen-All scan bs).0 (rw e at h)),
    λ h. rw e ((all_seen-All scan bs).1 h.1),
  )
  | inr e ↦ (λ h. cc (rw e at h), λ h. cc (e, (scan_has-Memᴰ scan b).1 h.0))
]

-- When the throttle turns a scan away, `e` ms after the capture of `obs`.
pub turned_away :
    (min_age_ms e : ℕ) (scan obs : List SsidObservation)
    → ((leb min_age_ms e || not (same_addresses scan obs)) ≡ false) ↔ (
        (e < min_age_ms)
        × ((length obs ≡ length scan) × All (λ b. Memᴰ b (bssids scan)) (bssids obs)))
turned_away min_age_ms e scan obs =
    let (seen, all) = all_seen-All scan (bssids obs) in
    (
      λ h.
          let (young, same, known) =
            split (length obs) (length scan) (all_seen scan (bssids obs)) h in
          (young, (same, seen known)),
      λ (young, (same, known)).
          join (length obs) (length scan) (all_seen scan (bssids obs)) young same (all known),
    )
  where
    split :
        (m n : ℕ) (b : Bool)
        → (leb min_age_ms e || not ((m == n) && b)) ≡ false
        → (e < min_age_ms) × (m ≡ n) × (b ≡ true)
    split m n true h = (ground arith, ground arith, refl)
    split m n false h = ground arith

    join :
        (m n : ℕ) (b : Bool)
        → e < min_age_ms
        → m ≡ n
        → b ≡ true
        → (leb min_age_ms e || not ((m == n) && b)) ≡ false
    join m n true young same known = ground arith
    join m n false young same known = cc
