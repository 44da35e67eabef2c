-- ===== src/PeerLedger/Lookup.antt =====
-- What peer_ledger_get finds after peer_ledger_apply.
use waxwing.Common.{
  ℕ, zero, suc, ◌+◌, ◌-◌, ◌^◌, ◌≤◌, ◌<◌, ◌≡◌, refl, ap, ◌∙◌, subst, arith, min, ltb,
}
use waxwing.Common.{List, [], ◌∷◌, ◌++◌, none, some, true}
use waxwing.Common.{
  ltb→lt, length, length-append, length-set, set, get_or, get_or-set_self, Bool-cases, Option-cases,
  inl, inr,
}
use mathlib.Core.Option.{some-injective}
use waxwing.Common.Bytes.{Bytes, bytes_eq, bytes_eq_refl}
use waxwing.Filestore.{Filestore}
use waxwing.PeerLedger.{
  LedgerEntry, find_index, upsert_slot, pick_eviction_victim, victim_loop, fresh,
}
use waxwing.PeerLedger.{peer_ledger_get, peer_ledger_apply, credited, sat_add_u64, update_at}

find_index-some :
    (es : List LedgerEntry) (p : Bytes) (i : ℕ)
    → find_index es p ≡ some i
    → (i < length es) × (bytes_eq (get_or es i (fresh [])).pub_key p ≡ true)
unfolding find_index
find_index-some [] p i h = cc
find_index-some (e ∷ es) p i h = elim (Bool-cases (bytes_eq e.pub_key p)) [
  | inl b ↦
      subst
        (λ i. (i < suc (length es)) × (bytes_eq (get_or (e ∷ es) i (fresh [])).pub_key p ≡ true))
        (some-injective _ _ (rw b at h)) (omega arith, b)
  | inr b ↦ elim (Option-cases (find_index es p)) [
    | inl k ↦ cc (rw (b, k) at h)
    | inr (j, k) ↦
        let (lt, found) = find_index-some es p j k in
        subst
          (λ i. (i < suc (length es)) × (bytes_eq (get_or (e ∷ es) i (fresh [])).pub_key p ≡ true))
          (some-injective _ _ (rw (b, k) at h)) (omega arith, found)
  ]
]

find_index-set_new :
    (es : List LedgerEntry) (p : Bytes) (i : ℕ) (e : LedgerEntry)
    → find_index es p ≡ none
    → i < length es
    → bytes_eq e.pub_key p ≡ true
    → find_index (set es i e) p ≡ some i
unfolding find_index
find_index-set_new [] p i e h lt k = absurd (omega arith)
find_index-set_new (x ∷ es) p zero e h lt k = rw k refl
find_index-set_new (x ∷ es) p (suc i) e h lt k = elim (Bool-cases (bytes_eq x.pub_key p)) [
  | inl b ↦ cc (rw b at h)
  | inr b ↦ elim (Option-cases (find_index es p)) [
    | inl m ↦ rw (b, find_index-set_new es p i e m (omega arith) k) refl
    | inr (j, m) ↦ cc (rw (b, m) at h)
  ]
]

find_index-set_old :
    (es : List LedgerEntry) (p : Bytes) (i : ℕ) (e : LedgerEntry)
    → find_index es p ≡ some i
    → bytes_eq e.pub_key p ≡ true
    → find_index (set es i e) p ≡ some i
unfolding find_index
find_index-set_old [] p i e h k = cc
find_index-set_old (x ∷ es) p zero e h k = rw k refl
find_index-set_old (x ∷ es) p (suc i) e h k = elim (Bool-cases (bytes_eq x.pub_key p)) [
  | inl b ↦ absurd (omega (arith, some-injective _ _ (rw b at h)))
  | inr b ↦ elim (Option-cases (find_index es p)) [
    | inl m ↦ cc (rw (b, m) at h)
    | inr (j, m) ↦
        rw
          (
            b,
            find_index-set_old es p i e
                (m ∙ ap some (omega (arith, some-injective _ _ (rw (b, m) at h)))) k,
          )
          refl
  ]
]

find_index-append :
    (es : List LedgerEntry) (p : Bytes) (e : LedgerEntry)
    → find_index es p ≡ none
    → bytes_eq e.pub_key p ≡ true
    → find_index (es ++ (e ∷ [])) p ≡ some (length es)
unfolding find_index
find_index-append [] p e h k = rw k refl
find_index-append (x ∷ es) p e h k = elim (Bool-cases (bytes_eq x.pub_key p)) [
  | inl b ↦ cc (rw b at h)
  | inr b ↦ elim (Option-cases (find_index es p)) [
    | inl m ↦ rw (b, find_index-append es p e m k) refl
    | inr (j, m) ↦ cc (rw (b, m) at h)
  ]
]

get_or-append :
    (es : List LedgerEntry) (e d : LedgerEntry) → get_or (es ++ (e ∷ [])) (length es) d ≡ e
get_or-append [] e d = refl
get_or-append (x ∷ es) e d = get_or-append es e d

victim_loop-lt :
    (es : List LedgerEntry) (i victim best : ℕ)
    → victim < i
    → victim_loop es i victim best < i + length es
unfolding victim_loop
victim_loop-lt [] i victim best h = omega arith
victim_loop-lt (e ∷ es) i victim best h = elim (Bool-cases (ltb e.last_meeting_count best)) [
  | inl b ↦ rw b (omega (arith, victim_loop-lt es (suc i) i e.last_meeting_count (omega arith)))
  | inr b ↦ rw b (omega (arith, victim_loop-lt es (suc i) victim best (omega arith)))
]

pick_eviction_victim-lt :
    (es : List LedgerEntry) → 0 < length es → pick_eviction_victim es < length es
unfolding pick_eviction_victim
pick_eviction_victim-lt [] h = h
pick_eviction_victim-lt (e ∷ es) h =
    omega (arith, victim_loop-lt es 1 0 e.last_meeting_count (omega arith))

-- The entry that stands for a peer before an update: its own, or a zeroed one.
unfoldable pub entry_of : List LedgerEntry → Bytes → LedgerEntry
entry_of es p = elim (peer_ledger_get es p) [ none ↦ fresh p | some e ↦ e ]

-- The slot is found, inside the table, and holds the peer's entry.
abbrev IsUpserted : List LedgerEntry → Bytes → List LedgerEntry × ℕ → Type 0
IsUpserted es p (es', i) =
    (find_index es' p ≡ some i)
    × (i < length es')
    × (get_or es' i (fresh []) ≡ entry_of es p)
    × (bytes_eq (entry_of es p).pub_key p ≡ true)

upsert_slot-IsUpserted : (es : List LedgerEntry) (p : Bytes) → IsUpserted es p (upsert_slot es p)
unfolding upsert_slot entry_of peer_ledger_get
upsert_slot-IsUpserted es p = elim (Option-cases (find_index es p)) [
  | inl e ↦ elim (Bool-cases (ltb (length es) 64)) [
    | inl b ↦
        rw (upsert_slot, entry_of, peer_ledger_get, e, b)
          (
            find_index-append es p (fresh p) e (bytes_eq_refl p),
            omega (arith, length-append es (fresh p ∷ [])),
            get_or-append es (fresh p) (fresh []),
            bytes_eq_refl p,
          )
    | inr b ↦
        let i = pick_eviction_victim es in
        let lt = pick_eviction_victim-lt es (ground arith) in
        rw (upsert_slot, entry_of, peer_ledger_get, e, b)
          (
            find_index-set_new es p i (fresh p) e lt (bytes_eq_refl p),
            rw (length-set es i (fresh p)) lt,
            get_or-set_self es i (fresh p) (fresh []) lt,
            bytes_eq_refl p,
          )
  ]
  | inr (i, e) ↦
      let (lt, held) = find_index-some es p i e in
      rw (upsert_slot, entry_of, peer_ledger_get, e) (e, lt, refl, held)
]

get-update_at :
    (es : List LedgerEntry) (p : Bytes) (c : List LedgerEntry × ℕ)
    (change : LedgerEntry → LedgerEntry)
    → IsUpserted es p c
    → ((e : LedgerEntry) → (change e).pub_key ≡ e.pub_key)
    → peer_ledger_get (update_at c change) p ≡ some (change (entry_of es p))
unfolding peer_ledger_get
get-update_at es p (es', i) change (found, lt, same, held) keeps =
    let x = change (get_or es' i (fresh [])) in
    rw
      (
        peer_ledger_get,
        find_index-set_old es' p i x found (rw (keeps (get_or es' i (fresh [])), same) held),
        get_or-set_self es' i x (fresh []) lt,
        same,
      )
      refl

credited-pub_key :
    (e : LedgerEntry) (tx rx file seen : ℕ) → (credited e tx rx file seen).pub_key ≡ e.pub_key
unfolding credited
credited-pub_key e tx rx file seen = refl

-- Sums that stop at the largest 64-bit number.
abbrev pub capped : ℕ → ℕ
capped n = min n (2 ^ 64 - 1)

sat_add_u64-capped : (a b : ℕ) → a < 2 ^ 64 → b < 2 ^ 64 → sat_add_u64 a b ≡ capped (a + b)
unfolding sat_add_u64
sat_add_u64-capped a b h k = ground arith

-- After amounts were credited to a peer, its entry is found. Its totals are those of the entry that it
-- had, or zero for a new peer, plus the amounts, up to the largest 64-bit number; its meeting
-- count never falls, and its score stays. This holds too where another peer's entry was given up for it.
pub get-apply :
    (fs : Filestore) (es : List LedgerEntry) (disk : fs.Disk) (p : Bytes) (tx rx file seen : ℕ)
    → tx < 2 ^ 64
    → rx < 2 ^ 64
    → file < 2 ^ 64
    → (entry_of es p).tx_bytes_lifetime < 2 ^ 64
    → (entry_of es p).rx_bytes_lifetime < 2 ^ 64
    → (entry_of es p).file_count_lifetime < 2 ^ 64
    → (e : LedgerEntry) × (peer_ledger_get (peer_ledger_apply fs es disk p tx rx file seen).0 p
        ≡ some e)
      × (e.tx_bytes_lifetime ≡ capped ((entry_of es p).tx_bytes_lifetime + tx))
      × (e.rx_bytes_lifetime ≡ capped ((entry_of es p).rx_bytes_lifetime + rx))
      × (e.file_count_lifetime ≡ capped ((entry_of es p).file_count_lifetime + file))
      × ((entry_of es p).last_meeting_count ≤ e.last_meeting_count)
      × (seen ≤ e.last_meeting_count)
      × (e.my_rep_score ≡ (entry_of es p).my_rep_score)
unfolding peer_ledger_apply credited
get-apply fs es disk p tx rx file seen h₁ h₂ h₃ k₁ k₂ k₃ = (
  credited (entry_of es p) tx rx file seen,
  get-update_at es p (upsert_slot es p) (λ e. credited e tx rx file seen)
      (upsert_slot-IsUpserted es p) (λ e. credited-pub_key e tx rx file seen),
  sat_add_u64-capped _ _ k₁ h₁,
  sat_add_u64-capped _ _ k₂ h₂,
  sat_add_u64-capped _ _ k₃ h₃,
  ground arith,
  ground arith,
  refl,
)

-- A table of at most 64 entries has at most 64 after amounts were credited to a peer.
pub length-apply :
    (fs : Filestore) (es : List LedgerEntry) (disk : fs.Disk) (p : Bytes) (tx rx file seen : ℕ)
    → length es ≤ 64
    → length (peer_ledger_apply fs es disk p tx rx file seen).0 ≤ 64
unfolding peer_ledger_apply upsert_slot
length-apply fs es disk p tx rx file seen h = elim (Option-cases (find_index es p)) [
  | inl e ↦ elim (Bool-cases (ltb (length es) 64)) [
    | inl b ↦
        rw (peer_ledger_apply, upsert_slot, e, b)
          (omega (
            arith,
            length-set (es ++ (fresh p ∷ [])) (length es)
                (credited (get_or (es ++ (fresh p ∷ [])) (length es) (fresh [])) tx rx file seen),
            length-append es (fresh p ∷ []),
            ltb→lt _ _ b,
          ))
    | inr b ↦
        let v = pick_eviction_victim es in
        rw (peer_ledger_apply, upsert_slot, e, b)
          (omega (
            arith,
            length-set (set es v (fresh p)) v
                (credited (get_or (set es v (fresh p)) v (fresh [])) tx rx file seen),
            length-set es v (fresh p),
          ))
  ]
  | inr (i, e) ↦
      rw (peer_ledger_apply, upsert_slot, e)
        (omega (arith, length-set es i (credited (get_or es i (fresh [])) tx rx file seen)))
]
