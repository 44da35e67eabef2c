-- ===== src/AttestQuery/Filter.antt =====
-- A query walks over the matching records of both stores, the device's own first.
use waxwing.Common.{
  ℕ, ◌+◌, ◌≡◌, refl, ap, sym, ◌∙◌, arith, List, [], ◌∷◌, ◌++◌, Bool, true, false, ◌==◌, length,
}
use waxwing.Common.{if◌then◌else◌, Bool-cases, inl, inr, append-nil}
use waxwing.Common.Bytes.{Bytes}
use waxwing.BlobRing.{Ring}
use waxwing.BlobRing.Contents.{contents}
use waxwing.BlobRing.Walk.{walk, after, walk-cons, ring_for_each-walk}
use waxwing.BlobRing.Restart.{IsStored}
use waxwing.Attestations.{attestations_config, attestations_for_each}
use waxwing.Attestations.Queue.{attestations_config-IsConfig}
use waxwing.AttestCache.{attest_cache_config, attest_cache_for_each}
use waxwing.AttestCache.Present.{attest_cache_config-IsConfig}
use waxwing.AttestQuery.{Walk, walk_cb, called, attest_query_for_each, attest_match_any_bssid}

-- The blobs of a list that match the query.
unfoldable pub matching : List Bytes → List Bytes → List Bytes
matching query [] = []
matching query (x ∷ xs) =
    if attest_match_any_bssid x query then x ∷ matching query xs else matching query xs

module _ {ℓ} {S : Type ℓ} (query : List Bytes) (cb : S → Bytes → S × Bool) where
  -- The walk over the rest, unless the walk before it was stopped.
  abbrev and_then : List Bytes → Walk S → S × ℕ
  and_then ys w = if w.stopped then (w.user_ctx, w.matches) else walk cb ys w.user_ctx w.matches

  abbrev fresh : S → ℕ → Walk S
  fresh s n = record { user_ctx = s; matches = n; stopped = false }

  walk_cb-match :
      (x : Bytes) (s : S) (n : ℕ)
      → attest_match_any_bssid x query ≡ true
      → walk_cb query cb (fresh s n) x ≡ called query cb n (cb s x)
  unfolding walk_cb
  walk_cb-match x s n e = rw e refl

  walk_cb-other :
      (x : Bytes) (s : S) (n : ℕ)
      → attest_match_any_bssid x query ≡ false
      → walk_cb query cb (fresh s n) x ≡ (fresh s n, false)
  unfolding walk_cb
  walk_cb-other x s n e = rw e refl

  after-called :
      (xs zs ys : List Bytes) (n seen : ℕ) (res : S × Bool)
      → ((s : S)
          → and_then ys (walk (walk_cb query cb) xs (fresh s (n + 1)) (seen + 1)).0
            ≡ walk cb zs s (n + 1))
      → and_then ys (after (walk_cb query cb) xs seen (called query cb n res)).0 ≡ after cb zs n res
  after-called xs zs ys n seen (s, true) h = refl
  after-called xs zs ys n seen (s, false) h = h s

  -- The walk over the matching blobs, counting them.
  walk_cb-matching :
      (xs ys : List Bytes) (s : S) (n seen : ℕ)
      → and_then ys (walk (walk_cb query cb) xs (fresh s n) seen).0
        ≡ walk cb (matching query xs ++ ys) s n
  unfolding matching walk
  walk_cb-matching [] ys s n seen = refl
  walk_cb-matching (x ∷ xs) ys s n seen = elim (Bool-cases (attest_match_any_bssid x query)) [
    | inl e ↦
        ap (λ t. and_then ys t.0)
          (walk-cons (walk_cb query cb) x xs (fresh s n) seen
            ∙ ap (after (walk_cb query cb) xs seen) (walk_cb-match x s n e))
        ∙ (after-called xs (matching query xs ++ ys) ys n seen (cb s x)
              (λ s. walk_cb-matching xs ys s (n + 1) (seen + 1))
            ∙ rw (matching, e) (sym (walk-cons cb x (matching query xs ++ ys) s n)))
    | inr e ↦
        ap (λ t. and_then ys t.0)
          (walk-cons (walk_cb query cb) x xs (fresh s n) seen
            ∙ ap (after (walk_cb query cb) xs seen) (walk_cb-other x s n e))
        ∙ (walk_cb-matching xs ys s n (seen + 1) ∙ rw (matching, e) refl)
  ]

  -- The C function's reading of the last state.
  abbrev result : Walk S → S × ℕ
  result w = (w.user_ctx, w.matches)

  and_then_nil : (w : Walk S) → and_then [] w ≡ result w
  unfolding walk
  and_then_nil w = elim (Bool-cases w.stopped) [ inl e ↦ rw e refl | inr e ↦ rw e refl ]

  second_walk :
      (ys : List Bytes) (s : S) (n : ℕ) (stop : Bool)
      → result (
          if stop
          then (record { user_ctx = s; matches = n; stopped = stop })
          else (walk
              (walk_cb query cb)
              ys
              (record { user_ctx = s; matches = n; stopped = stop })
              0).0)
        ≡ and_then (matching query ys) (record { user_ctx = s; matches = n; stopped = stop })
  second_walk ys s n true = refl
  second_walk ys s n false =
      sym (and_then_nil (walk (walk_cb query cb) ys (fresh s n) 0).0)
      ∙ (walk_cb-matching ys [] s n 0 ∙ ap (λ zs. walk cb zs s n) (append-nil (matching query ys)))

  matching-empty : (xs : List Bytes) → length query ≡ 0 → matching query xs ≡ []
  unfolding matching attest_match_any_bssid
  matching-empty [] h = refl
  matching-empty (x ∷ xs) h = rw (matching, h) (matching-empty xs h)

  -- If both stores are well formed, a query calls back with the records of the device's own store that match it and then with those of the cache, the oldest of each first, until a callback asks to stop, and returns the number of calls.
  pub attest_query_for_each-matching :
      (own cache : Ring) (s : S)
      → IsStored attestations_config own
      → IsStored attest_cache_config cache
      → attest_query_for_each query cb own cache s
        ≡ walk cb
            (matching query (contents attestations_config own)
              ++ matching query (contents attest_cache_config cache))
            s
            0
  unfolding attest_query_for_each attestations_for_each attest_cache_for_each walk
  attest_query_for_each-matching own cache s wo wc = elim (Bool-cases (length query == 0)) [
    | inl e ↦
        let empty : length query ≡ 0 = ground arith in
        rw
          (
            attest_query_for_each,
            e,
            matching-empty (contents attestations_config own) empty,
            matching-empty (contents attest_cache_config cache) empty,
          )
          refl
    | inr e ↦
        let w : Walk S =
          (walk (walk_cb query cb) (contents attestations_config own) (fresh s 0) 0).0 in
        rw
          (
            attest_query_for_each,
            e,
            ring_for_each-walk (walk_cb query cb) attestations_config own (fresh s 0)
                attestations_config-IsConfig wo.filled.ring,
            ring_for_each-walk (walk_cb query cb) attest_cache_config cache w
                attest_cache_config-IsConfig wc.filled.ring,
          )
          (second_walk (contents attest_cache_config cache) w.user_ctx w.matches w.stopped
            ∙ walk_cb-matching (contents attestations_config own)
                (matching query (contents attest_cache_config cache)) s 0 0)
  ]
