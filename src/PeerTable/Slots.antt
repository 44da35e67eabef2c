-- ===== src/PeerTable/Slots.antt =====
-- The two searches of peer_table.c: the slot of a peer, and the slot to give up.
use waxwing.Common.{
  ℕ, zero, suc, ◌+◌, ◌-◌, ◌^◌, ◌≤◌, ◌<◌, ◌≡◌, refl, sym, ap, ◌∙◌, subst, arith, ltb,
}
use waxwing.Common.{[], ◌∷◌, none, some, true, false, not, if◌then◌else◌}
use waxwing.Common.{ltb→lt, length, set, get_or, All, Bool-cases, Option-cases, inl, inr, ◌⊎◌}
use mathlib.Core.Option.{some-injective}
use waxwing.Common.Bytes.{Bytes}
use waxwing.PeerTable.{PeerTable, PeerEntry, empty_entry, holds, find_slot, eviction_loop}
use waxwing.PeerTable.{pick_eviction_slot, peer_table_size}

-- The slot that is found is inside the table and holds the peer.
pub find_slot-some :
    (t : PeerTable) (p : Bytes) (i : ℕ)
    → find_slot t p ≡ some i
    → (i < length t) × (holds (get_or t i empty_entry) p ≡ true)
unfolding find_slot
find_slot-some [] p i h = cc
find_slot-some (e ∷ t) p i h = elim (Bool-cases (holds e p)) [
  | inl b ↦
      subst (λ i. (i < suc (length t)) × (holds (get_or (e ∷ t) i empty_entry) p ≡ true))
        (some-injective _ _ (rw b at h)) (omega arith, b)
  | inr b ↦ elim (Option-cases (find_slot t p)) [
    | inl k ↦ cc (rw (b, k) at h)
    | inr (j, k) ↦
        let (lt, found) = find_slot-some t p j k in
        subst (λ i. (i < suc (length t)) × (holds (get_or (e ∷ t) i empty_entry) p ≡ true))
          (some-injective _ _ (rw (b, k) at h)) (omega arith, found)
  ]
]

-- A peer that had no slot is found in the slot that it is put in.
pub find_slot-set_new :
    (t : PeerTable) (p : Bytes) (i : ℕ) (e : PeerEntry)
    → find_slot t p ≡ none
    → i < length t
    → holds e p ≡ true
    → find_slot (set t i e) p ≡ some i
unfolding find_slot
find_slot-set_new [] p i e h lt k = absurd (omega arith)
find_slot-set_new (x ∷ t) p zero e h lt k = rw k refl
find_slot-set_new (x ∷ t) p (suc i) e h lt k = elim (Bool-cases (holds x p)) [
  | inl b ↦ cc (rw b at h)
  | inr b ↦ elim (Option-cases (find_slot t p)) [
    | inl m ↦ rw (b, find_slot-set_new t p i e m (omega arith) k) refl
    | inr (j, m) ↦ cc (rw (b, m) at h)
  ]
]

-- A peer that had a slot keeps it, whatever else is written there.
pub find_slot-set_old :
    (t : PeerTable) (p : Bytes) (i : ℕ) (e : PeerEntry)
    → find_slot t p ≡ some i
    → holds e p ≡ true
    → find_slot (set t i e) p ≡ some i
unfolding find_slot
find_slot-set_old [] p i e h k = cc
find_slot-set_old (x ∷ t) p zero e h k = rw k refl
find_slot-set_old (x ∷ t) p (suc i) e h k = elim (Bool-cases (holds x p)) [
  | inl b ↦ absurd (omega (arith, some-injective _ _ (rw b at h)))
  | inr b ↦ elim (Option-cases (find_slot t p)) [
    | inl m ↦ cc (rw (b, m) at h)
    | inr (j, m) ↦
        rw
          (
            b,
            find_slot-set_old t p i e
                (m ∙ ap some (omega (arith, some-injective _ _ (rw (b, m) at h)))) k,
          )
          refl
  ]
]

-- A write to a slot that holds another peer, before and after, does not change the search.
pub find_slot-set_other :
    (t : PeerTable) (q : Bytes) (i : ℕ) (e : PeerEntry)
    → holds (get_or t i empty_entry) q ≡ false
    → holds e q ≡ false
    → find_slot (set t i e) q ≡ find_slot t q
unfolding find_slot
find_slot-set_other [] q i e h k = refl
find_slot-set_other (x ∷ t) q zero e h k = rw (h, k) refl
find_slot-set_other (x ∷ t) q (suc i) e h k = rw (find_slot-set_other t q i e h k) refl

eviction_loop-lt :
    (t : PeerTable) (i lru stamp : ℕ)
    → lru < i + length t
    → eviction_loop t i lru stamp < i + length t
unfolding eviction_loop
eviction_loop-lt [] i lru stamp h = h
eviction_loop-lt (e ∷ t) i lru stamp h = elim (Bool-cases e.used) [
  | inl u ↦ elim (Bool-cases (ltb e.last_synced_ms stamp)) [
    | inl b ↦ rw (u, b) (omega (arith, eviction_loop-lt t (suc i) i e.last_synced_ms (omega arith)))
    | inr b ↦ elim (Bool-cases (ltb lru (suc i + length t))) [
      | inl c ↦ rw (u, b) (omega (arith, eviction_loop-lt t (suc i) lru stamp (omega arith)))
      | inr c ↦ absurd (ground arith)
    ]
  ]
  | inr u ↦ rw u (omega arith)
]

-- The slot to give up is inside a table that is not empty.
pub pick_eviction_slot-lt : (t : PeerTable) → 0 < length t → pick_eviction_slot t < length t
unfolding pick_eviction_slot
pick_eviction_slot-lt t h = omega (arith, eviction_loop-lt t 0 0 (2 ^ 32 - 1) (omega arith))

abbrev pub AllUsed : PeerTable → Type 0
AllUsed t = All (λ e. e.used ≡ true) t

-- No entry has a lesser stamp.
abbrev pub IsLeast : PeerTable → ℕ → Type 0
IsLeast t stamp = All (λ e. stamp ≤ e.last_synced_ms) t

-- The loop ends with the slot that it started from, or with a younger one of the list.
abbrev LoopResult : PeerTable → ℕ → ℕ → ℕ → ℕ → Type 0
LoopResult t i lru stamp r =
    ((r ≡ lru) × IsLeast t stamp)
    ⊎ ((k : ℕ) × (r ≡ i + k)
        × ((get_or t k empty_entry).last_synced_ms < stamp)
        × IsLeast t (get_or t k empty_entry).last_synced_ms)

eviction_loop_lem :
    (t : PeerTable) (i lru stamp : ℕ)
    → AllUsed t
    → LoopResult t i lru stamp (eviction_loop t i lru stamp)
unfolding eviction_loop
eviction_loop_lem [] i lru stamp h = inl (refl, tt)
eviction_loop_lem (e ∷ t) i lru stamp (u, h) = elim (Bool-cases (ltb e.last_synced_ms stamp)) [
  | inl b ↦
      rw (u, b)
        (elim (eviction_loop_lem t (suc i) i e.last_synced_ms h) [
          | inl (r, all) ↦ inr (0, r ∙ omega arith, ltb→lt _ _ b, (omega arith, all))
          | inr (k, r, lt, all) ↦
              inr (suc k, r ∙ omega arith, omega (arith, ltb→lt _ _ b), (omega arith, all))
        ])
  | inr b ↦
      rw (u, b)
        (elim (eviction_loop_lem t (suc i) lru stamp h) [
          | inl (r, all) ↦ inl (r, (ground arith, all))
          | inr (k, r, lt, all) ↦ inr (suc k, r ∙ omega arith, lt, (ground arith, all))
        ])
]

IsLeast-max :
    (t : PeerTable)
    → All (λ e. e.last_synced_ms < 2 ^ 32) t
    → IsLeast t (2 ^ 32 - 1)
    → IsLeast t (get_or t 0 empty_entry).last_synced_ms
IsLeast-max [] small all = tt
IsLeast-max (e ∷ t) small all = subst (λ s. IsLeast (e ∷ t) s) (omega (arith, small.0, all.0)) all

picked-IsLeast :
    (t : PeerTable)
    → AllUsed t
    → All (λ e. e.last_synced_ms < 2 ^ 32) t
    → IsLeast t (get_or t (pick_eviction_slot t) empty_entry).last_synced_ms
unfolding pick_eviction_slot
picked-IsLeast t used small = elim (eviction_loop_lem t 0 0 (2 ^ 32 - 1) used) [
  | inl (r, all) ↦ rw r (IsLeast-max t small all)
  | inr (k, r, lt, all) ↦
      let r' : eviction_loop t 0 0 (2 ^ 32 - 1) ≡ k = omega (arith, r) in rw r' all
]

-- In a full table that is not empty, with stamps of 32 bits, the slot that is given up is one of the
-- table's, and its stamp is the least number of all. That is the oldest stamp as long as the clock
-- has not wrapped between the stamps.
pub pick_eviction_slot-IsLeast :
    (t : PeerTable)
    → 0 < length t
    → AllUsed t
    → All (λ e. e.last_synced_ms < 2 ^ 32) t
    → (pick_eviction_slot t < length t)
      × IsLeast t (get_or t (pick_eviction_slot t) empty_entry).last_synced_ms
pick_eviction_slot-IsLeast t h used small = (pick_eviction_slot-lt t h, picked-IsLeast t used small)

-- While a slot is free, a free one is taken.
abbrev TakesFree : PeerTable → ℕ → ℕ → Type 0
TakesFree t i r = (k : ℕ) × (r ≡ i + k) × ((get_or t k empty_entry).used ≡ false)

TakesFree-cons :
    (e : PeerEntry) (t : PeerTable) (i r : ℕ) → TakesFree t (suc i) r → TakesFree (e ∷ t) i r
TakesFree-cons e t i r (k, eq, free) = (suc k, eq ∙ omega arith, free)

eviction_loop-free :
    (t : PeerTable) (i lru stamp : ℕ)
    → peer_table_size t < length t
    → TakesFree t i (eviction_loop t i lru stamp)
unfolding eviction_loop peer_table_size
eviction_loop-free [] i lru stamp h = absurd (omega arith)
eviction_loop-free (e ∷ t) i lru stamp h = elim (Bool-cases e.used) [
  | inl u ↦
      let h' : peer_table_size t < length t = omega (arith, rw u at h) in
      let lru' = if ltb e.last_synced_ms stamp then i else lru in
      let stamp' = if ltb e.last_synced_ms stamp then e.last_synced_ms else stamp in
      let rest = eviction_loop t (suc i) lru' stamp' in
      subst (λ used. TakesFree (e ∷ t) i (if not used then i else rest)) (sym u)
        (TakesFree-cons e t i rest (eviction_loop-free t (suc i) lru' stamp' h'))
  | inr u ↦ (0, rw u (omega arith), u)
]

pub pick_eviction_slot-free :
    (t : PeerTable)
    → peer_table_size t < length t
    → (get_or t (pick_eviction_slot t) empty_entry).used ≡ false
unfolding pick_eviction_slot
pick_eviction_slot-free t h =
    let (k, r, free) = eviction_loop-free t 0 0 (2 ^ 32 - 1) h in
    let r' : eviction_loop t 0 0 (2 ^ 32 - 1) ≡ k = omega (arith, r) in rw r' free
