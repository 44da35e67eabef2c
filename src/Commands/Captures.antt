-- ===== src/Commands/Captures.antt =====
-- firmware/core/commands.c: the page of stored captures that the companion app asks for.
use waxwing.Common.{
  ℕ, ◌+◌, ◌%◌, ◌^◌, ◌≡◌, refl, sym, ap, ◌∙◌, List, [], ◌∷◌, Bool, true, false, not, some,
}
use waxwing.Common.{if◌then◌else◌, Bool-cases, inl, inr}
use waxwing.Common.Bytes.{Bytes}
use waxwing.Filestore.{Filestore}
use waxwing.BlobRing.Contents.{contents, IsRing, live_slots, records-max, length-contents_le}
use waxwing.BlobRing.Walk.{walk, after, ring_for_each-walk}
use waxwing.Encounters.{encounters_config, encounters_for_each, encounters_record_captured_at}
use waxwing.Encounters.Throttle.{encounters_config-IsConfig}
use waxwing.Commands.{text, Radio, Device, budget_behind, response_budget, get_uint_or}
use waxwing.Commands.Pages.{
  PageWalk, page_walk, is_later, enc_count_cb, enc_emit_cb, emit_record, cmd_encounters_get,
}
use waxwing.Commands.Fitting.{AreShort, count_cb, step, page_of, page_response-passes}
use waxwing.Commands.Envelope.{Fits, page_of-Fits}
use waxwing.Commands.Paging.{AreShort-of}
use waxwing.Common.{subst, arith, ltb, length, ◌≤◌}
use waxwing.Cbor.Encode.{cborencode_text_str, encode_header}
use waxwing.SsidScan.{SsidObservation}
use waxwing.Encounters.Layout.{IsCapture, record_bytes}
use waxwing.Encounters.Time.{captured_at-record_bytes_alone}

-- The captures that are later than `since_ms`.
unfoldable pub later : ℕ → List Bytes → List Bytes
later since_ms [] = []
later since_ms (x ∷ xs) = if is_later since_ms x then x ∷ later since_ms xs else later since_ms xs

module _ (since_ms : ℕ) (cb : PageWalk → Bytes → PageWalk × Bool) where
  -- A callback that passes over the earlier captures.
  abbrev guarded : PageWalk → Bytes → PageWalk × Bool
  guarded w x = if not (is_later since_ms x) then (w, false) else cb w x

  after-guarded :
      (xs ys : List Bytes) (seen seen' : ℕ) (res : PageWalk × Bool)
      → ((w : PageWalk) (seen seen' : ℕ) → (walk guarded xs w seen).0 ≡ (walk cb ys w seen').0)
      → (after guarded xs seen res).0 ≡ (after cb ys seen' res).0
  after-guarded xs ys seen seen' (w, true) h = refl
  after-guarded xs ys seen seen' (w, false) h = h w (seen + 1) (seen' + 1)

  walk-later :
      (xs : List Bytes) (w : PageWalk) (seen seen' : ℕ)
      → (walk guarded xs w seen).0 ≡ (walk cb (later since_ms xs) w seen').0
  unfolding walk later
  walk-later [] w seen seen' = refl
  walk-later (x ∷ xs) w seen seen' = elim (Bool-cases (is_later since_ms x)) [
    | inl e ↦
        let here : guarded w x ≡ cb w x = rw e refl in
        step guarded x xs w seen here
        ∙ (after-guarded xs (later since_ms xs) seen seen' (cb w x)
              (λ w seen seen'. walk-later xs w seen seen')
            ∙ rw (later, e) (sym (step cb x (later since_ms xs) w seen' refl)))
    | inr e ↦
        let here : guarded w x ≡ (w, false) = rw e refl in
        step guarded x xs w seen here ∙ (walk-later xs w (seen + 1) seen' ∙ rw (later, e) refl)
  ]

later-AreShort : (since_ms : ℕ) (xs : List Bytes) → AreShort xs → AreShort (later since_ms xs)
unfolding later
later-AreShort since_ms [] h = tt
later-AreShort since_ms (x ∷ xs) (short, h) = elim (Bool-cases (is_later since_ms x)) [
  | inl e ↦ rw (later, e) (short, later-AreShort since_ms xs h)
  | inr e ↦ rw (later, e) (later-AreShort since_ms xs h)
]

length-later_le : (since_ms : ℕ) (xs : List Bytes) → length (later since_ms xs) ≤ length xs
unfolding later
length-later_le since_ms [] = omega arith
length-later_le since_ms (x ∷ xs) = ground (arith, length-later_le since_ms xs)

length-records_key : length (text "records") ≡ 8
unfolding cborencode_text_str encode_header
length-records_key = refl

-- The response for any well-formed ring, and its size.
get-page :
    {fs : Filestore} (radio : Radio) (dev : Device fs) (body : Bytes) (pc out_max : ℕ)
    → IsRing encounters_config dev.encounters
    → (cmd_encounters_get radio dev body pc out_max
        ≡ some (
            page_of "records"
              (budget_behind 32 (response_budget radio out_max))
              (get_uint_or body pc "offset" 0 % 2 ^ 32)
              (later
                (get_uint_or body pc "since_ms" 0 % 2 ^ 32)
                (contents encounters_config dev.encounters))))
      × Fits
          (page_of "records"
            (budget_behind 32 (response_budget radio out_max))
            (get_uint_or body pc "offset" 0 % 2 ^ 32)
            (later
              (get_uint_or body pc "since_ms" 0 % 2 ^ 32)
              (contents encounters_config dev.encounters)))
          (response_budget radio out_max)
unfolding cmd_encounters_get encounters_for_each enc_count_cb enc_emit_cb contents
get-page radio dev body pc out_max wf =
    let room : ℕ = response_budget radio out_max in
    let budget : ℕ = budget_behind 32 room in
    let since_ms : ℕ = get_uint_or body pc "since_ms" 0 % 2 ^ 32 in
    let offset : ℕ = get_uint_or body pc "offset" 0 % 2 ^ 32 in
    let stored : List Bytes = contents encounters_config dev.encounters in
    let short : AreShort (later since_ms stored) = later-AreShort since_ms stored (
      AreShort-of 254 stored (omega arith)
        (records-max encounters_config (live_slots encounters_config dev.encounters))) in
    let total : ℕ =
      (walk (count_cb budget) (later since_ms stored) (page_walk offset 0) 0).0.to_emit in
    (
      rw
          (
            ring_for_each-walk (guarded since_ms (count_cb budget)) encounters_config dev.encounters
                (page_walk offset 0) encounters_config-IsConfig wf,
            walk-later since_ms (count_cb budget) stored (page_walk offset 0) 0 0,
            ring_for_each-walk (guarded since_ms emit_record) encounters_config dev.encounters
                (page_walk offset total) encounters_config-IsConfig wf,
            walk-later since_ms emit_record stored (page_walk offset total) 0 0,
          )
          (ap some (page_response-passes "records" budget offset (later since_ms stored) short)),
      page_of-Fits "records" room offset (later since_ms stored) (omega (arith, length-records_key))
          (omega (
            arith,
            length-later_le since_ms stored,
            length-contents_le encounters_config dev.encounters wf,
          )),
    )

-- A capture, as encounters.c encodes one.
pub record Capture : Type 0 where
  pub node : Bytes
  pub time : ℕ
  pub obs : List SsidObservation
  pub sig : Bytes
  pub fits : IsCapture node time obs sig

abbrev pub encoded : List Capture → List Bytes
encoded [] = []
encoded (c ∷ cs) = record_bytes c.node c.time c.obs c.sig ∷ encoded cs

-- The captures that were made after a time.
unfoldable pub made_after : ℕ → List Capture → List Capture
made_after since_ms [] = []
made_after since_ms (c ∷ cs) =
    if ltb since_ms c.time then c ∷ made_after since_ms cs else made_after since_ms cs

is_later-captured_at :
    (since_ms time : ℕ) (x : Bytes)
    → encounters_record_captured_at x (length x) ≡ some time
    → is_later since_ms x ≡ ltb since_ms time
unfolding is_later
is_later-captured_at since_ms time x e = rw (is_later, e) refl

is_later-record_bytes :
    (since_ms : ℕ) (c : Capture)
    → is_later since_ms (record_bytes c.node c.time c.obs c.sig) ≡ ltb since_ms c.time
is_later-record_bytes since_ms c =
    is_later-captured_at since_ms c.time (record_bytes c.node c.time c.obs c.sig)
      (captured_at-record_bytes_alone c.node c.time c.obs c.sig c.fits)

later-encoded :
    (since_ms : ℕ) (cs : List Capture)
    → later since_ms (encoded cs) ≡ encoded (made_after since_ms cs)
unfolding later made_after
later-encoded since_ms [] = refl
later-encoded since_ms (c ∷ cs) = elim (Bool-cases (ltb since_ms c.time)) [
  | inl e ↦
      rw (later, made_after, is_later-record_bytes since_ms c, e)
        (ap (λ xs. record_bytes c.node c.time c.obs c.sig ∷ xs) (later-encoded since_ms cs))
  | inr e ↦ rw (later, made_after, is_later-record_bytes since_ms c, e) (later-encoded since_ms cs)
]

-- If the ring of captures is well formed and holds the encodings of the captures `cs`, the response is
-- the page of those made later than `since_ms`, behind the first `offset` of them: the leading ones
-- whose byte strings together fit the room less 32 bytes, announced by their number, and the offset of
-- the next page exactly if one is left. The response is within the room, unless that is less than 32
-- bytes.
pub cmd_encounters_get-page :
    {fs : Filestore} (radio : Radio) (dev : Device fs) (body : Bytes) (pc out_max : ℕ)
    (cs : List Capture)
    → IsRing encounters_config dev.encounters
    → contents encounters_config dev.encounters ≡ encoded cs
    → (cmd_encounters_get radio dev body pc out_max
        ≡ some (
            page_of "records"
              (budget_behind 32 (response_budget radio out_max))
              (get_uint_or body pc "offset" 0 % 2 ^ 32)
              (encoded (made_after (get_uint_or body pc "since_ms" 0 % 2 ^ 32) cs))))
      × Fits
          (page_of "records"
            (budget_behind 32 (response_budget radio out_max))
            (get_uint_or body pc "offset" 0 % 2 ^ 32)
            (encoded (made_after (get_uint_or body pc "since_ms" 0 % 2 ^ 32) cs)))
          (response_budget radio out_max)
cmd_encounters_get-page radio dev body pc out_max cs wf held =
    let since_ms : ℕ = get_uint_or body pc "since_ms" 0 % 2 ^ 32 in
    let page : List Bytes → Bytes =
      page_of "records" (budget_behind 32 (response_budget radio out_max))
        (get_uint_or body pc "offset" 0 % 2 ^ 32) in
    subst
      (λ xs.
        (cmd_encounters_get radio dev body pc out_max ≡ some (page xs))
        × Fits (page xs) (response_budget radio out_max))
      (ap (later since_ms) held ∙ later-encoded since_ms cs) (get-page radio dev body pc out_max wf)
