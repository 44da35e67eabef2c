-- ===== src/Commands/Tests.antt =====
-- Tests of commands.c's model over a medium with one blob and one user file, and witnesses.
use waxwing.Common.{ℕ, ◌%◌, ◌^◌, ◌≡◌, ◌≢◌, refl, ap, arith, List, [], ◌∷◌, ◌++◌, true, false}
use waxwing.Common.{
  Option, none, some, take, replicate, length, length-take, All, All-take, subst, ◌≤◌,
}
use waxwing.Common.Int.{ℤ, pos, negsuc}
use waxwing.Common.Bytes.{Bytes}
use waxwing.Common.Text.{codes}
use waxwing.Cbor.Encode.{cborencode_map_header, cborencode_text_str}
use waxwing.Filestore.{Filestore}
use waxwing.SsidScan.{SsidObservation}
use waxwing.BlobRing.{ring_append}
use waxwing.BlobRing.Contents.{IsFilled, contents}
use waxwing.BlobRing.Append.{contents-ring_append, ring_append-IsFilled}
use waxwing.BlobRing.Contents.{IsRecord, records}
use waxwing.BlobRing.Restart.{ring_append-IsStored}
use waxwing.Cbor.Fields.{put_fields}
use waxwing.Cbor.Encode.{
  cborencode_byte_str, encode_header, cborencode_uint, put_strs, cborencode_array_header,
}
use waxwing.AttestQuery.Named.{Attestation, blob_of, blobs_of, naming}
use waxwing.BlobRing.Queue.{push}
use waxwing.BlobRing.{blank_ring}
use waxwing.BlobRing.Restart.{IsStored, blank_ring-IsStored}
use waxwing.Attestations.{attestations_config, attestations_reset, attestations_write}
use waxwing.Attestations.Queue.{attestations_config-IsConfig}
use waxwing.AttestCache.{attest_cache_config, attest_cache_reset}
use waxwing.AttestCache.Present.{attest_cache_config-IsConfig}
use waxwing.Encounters.{encounters_config, encounters_reset}
use waxwing.Encounters.Layout.{IsCapture, record_bytes, record_bytes-IsRecord}
use waxwing.Encounters.Throttle.{encounters_config-IsConfig}
use waxwing.Commands.{
  FileEntry, UserFiles, Radio, Device, resolve_loop, out_of_fuel, budget_behind, response_budget,
  get_uint_or,
}
use waxwing.Commands.Pages.{cmd_encounters_get}
use waxwing.Commands.Attest.{answer_query}
use waxwing.Commands.Dispatch.{peer, commands_handle_session}
use waxwing.Commands.Gate.{IngestSteps, peer-IngestSteps}
use waxwing.Commands.Resolve.{IsListing, resolve_loop-terminates}
use waxwing.Commands.Fitting.{page_of}
use waxwing.Commands.Envelope.{Fits}
use waxwing.Commands.Paging.{answer_query-page}
use waxwing.Commands.Files.{cmd_ls, ls_response, ls_fitting, ls_entry_size, cbor_arg_size}
use waxwing.Commands.Size.{IsEntry, IsPaged, cmd_ls-fits}
use waxwing.Cbor.Decode.{cbor_map_get_uint, cbor_map_find}
use waxwing.Commands.Captures.{Capture, encoded, made_after, cmd_encounters_get-page}

-- A medium that remembers the last write.
abbrev last_write : Filestore
last_write = record {
  Disk = Bytes;
  fs_system_read = λ disk blob buf_size. some (take buf_size disk);
  fs_system_write = λ disk blob data'. (data', true);
}

abbrev photo : FileEntry
photo = record { name = codes "photo"; size = 1000; hash = replicate 8 1 }

-- One file, which cannot be changed.
abbrev one_file : UserFiles last_write
one_file = record {
  fs_list = λ disk offset limit. some (photo ∷ [], pos 0);
  fs_storage_info = λ disk. record { free = 1; used = 2; reserve = 3; count = 1 };
  fs_read = λ disk name cap. some [];
  fs_write = λ disk name data'. (disk, false);
  fs_chunked_start = λ disk name total. (disk, false);
  fs_chunked_append = λ disk data'. (disk, false);
  fs_chunked_finish = λ disk name. (disk, false);
  fs_read_start = λ disk name. some 0;
  fs_read_chunk = λ disk name offset size cap. some [];
  fs_delete = λ disk name. (disk, false);
  fs_read_meta = λ disk name cap. none;
  fs_write_meta = λ disk name data'. (disk, false);
}

next_of : Option (List FileEntry × ℤ) → ℕ
next_of none = 0
next_of (some (entries, pos n)) = n
next_of (some (entries, negsuc n)) = 0

one_file-IsListing : IsListing one_file
unfolding next_of
one_file-IsListing = record {
  next_int =
      λ disk offset limit entries next e. let zero_next : 0 ≡ next = ap next_of e in omega arith;
}

resolve_loop-terminates_example : resolve_loop one_file (2 ^ 31) [] (replicate 8 2) 0 ≢ out_of_fuel
resolve_loop-terminates_example =
    resolve_loop-terminates one_file [] (replicate 8 2) one_file-IsListing

abbrev radio : Radio
radio = record { mtu = 185; latest_scan = none }

abbrev seen : SsidObservation
seen = record { bssid = replicate 6 170; ssid = []; rssi = pos 0; channel = 1 }

seen-IsCapture : IsCapture (replicate 32 2) 70000 (seen ∷ []) (replicate 64 3)
seen-IsCapture = record {
  node = refl;
  time = omega arith;
  some_seen = omega arith;
  few_seen = omega arith;
  addresses = (refl, tt);
  sig = refl;
}

abbrev capture : Bytes
capture = record_bytes (replicate 32 2) 70000 (seen ∷ []) (replicate 64 3)

reset-IsFilled : IsFilled encounters_config encounters_reset
unfolding encounters_reset
reset-IsFilled = (blank_ring-IsStored encounters_config encounters_config-IsConfig).filled

one_capture-IsFilled :
    IsFilled encounters_config (ring_append encounters_config encounters_reset capture)
one_capture-IsFilled =
    ring_append-IsFilled encounters_config encounters_reset capture encounters_config-IsConfig
      reset-IsFilled
      (record_bytes-IsRecord (replicate 32 2) 70000 (seen ∷ []) (replicate 64 3) seen-IsCapture)

own_reset-IsStored : IsStored attestations_config attestations_reset
unfolding attestations_reset
own_reset-IsStored = blank_ring-IsStored attestations_config attestations_config-IsConfig

cache_reset-IsStored : IsStored attest_cache_config attest_cache_reset
unfolding attest_cache_reset
cache_reset-IsStored = blank_ring-IsStored attest_cache_config attest_cache_config-IsConfig

abbrev device : Device last_write
device = record {
  disk = [];
  manifest = 0;
  own = (attestations_write last_write attestations_reset [] (161 ∷ 4 ∷ 128 ∷ [])).0;
  cache = attest_cache_reset;
  encounters = ring_append encounters_config encounters_reset capture;
}

-- A request to delete a file.
abbrev request : Bytes
request =
    cborencode_map_header 2
    ++ (cborencode_text_str (codes "cmd")
        ++ (cborencode_text_str (codes "delete")
            ++ (cborencode_text_str (codes "name") ++ cborencode_text_str (codes "photo"))))

peer-IngestSteps_example :
    IngestSteps device (commands_handle_session one_file radio peer device request 512).0
peer-IngestSteps_example = peer-IngestSteps one_file radio device request 512

abbrev one : Capture
one = record {
  node = replicate 32 2;
  time = 70000;
  obs = seen ∷ [];
  sig = replicate 64 3;
  fits = seen-IsCapture;
}

one_capture-contents : contents encounters_config device.encounters ≡ encoded (one ∷ [])
unfolding contents records push encounters_reset blank_ring
one_capture-contents =
    contents-ring_append encounters_config encounters_reset capture encounters_config-IsConfig
      reset-IsFilled
      (record_bytes-IsRecord (replicate 32 2) 70000 (seen ∷ []) (replicate 64 3) seen-IsCapture)

cmd_encounters_get-page_example :
    (cmd_encounters_get radio device [] 0 512
      ≡ some (
          page_of "records"
            (budget_behind 32 (response_budget radio 512))
            (get_uint_or [] 0 "offset" 0 % 2 ^ 32)
            (encoded (made_after (get_uint_or [] 0 "since_ms" 0 % 2 ^ 32) (one ∷ [])))))
    × Fits
        (page_of "records"
          (budget_behind 32 (response_budget radio 512))
          (get_uint_or [] 0 "offset" 0 % 2 ^ 32)
          (encoded (made_after (get_uint_or [] 0 "since_ms" 0 % 2 ^ 32) (one ∷ []))))
        (response_budget radio 512)
cmd_encounters_get-page_example =
    cmd_encounters_get-page radio device [] 0 512 (one ∷ []) one_capture-IsFilled.ring
      one_capture-contents

abbrev attestation : Attestation
attestation = record {
  front = [];
  addresses = replicate 6 187 ∷ [];
  few = omega arith;
  six = (refl, tt);
  back = [];
  other = tt;
  count = omega arith;
}

attestation-IsRecord : IsRecord attestations_config (blob_of attestation)
unfolding cborencode_byte_str encode_header cborencode_map_header cborencode_uint put_strs
    cborencode_array_header put_fields
attestation-IsRecord = record { not_empty = omega arith; fits = omega arith }

-- A device that keeps an attestation of its own.
abbrev attesting : Device last_write
attesting = record device {
  own = ring_append attestations_config attestations_reset (blob_of attestation);
}

attesting-IsStored : IsStored attestations_config attesting.own
attesting-IsStored =
    ring_append-IsStored attestations_config attestations_reset (blob_of attestation)
      attestations_config-IsConfig own_reset-IsStored attestation-IsRecord

attesting-own : contents attestations_config attesting.own ≡ blobs_of (attestation ∷ [])
unfolding contents records push attestations_reset blank_ring
attesting-own =
    contents-ring_append attestations_config attestations_reset (blob_of attestation)
      attestations_config-IsConfig own_reset-IsStored.filled attestation-IsRecord

attesting-cache : contents attest_cache_config attesting.cache ≡ blobs_of []
unfolding contents records attest_cache_reset blank_ring
attesting-cache = refl

answer_query-page_example :
    (answer_query radio attesting (replicate 6 187 ∷ []) 0 512
      ≡ page_of "blobs" (budget_behind 32 (response_budget radio 512)) 0 (
          blobs_of (naming (replicate 6 187 ∷ []) (attestation ∷ []))
          ++ blobs_of (naming (replicate 6 187 ∷ []) [])))
    × Fits (answer_query radio attesting (replicate 6 187 ∷ []) 0 512) (response_budget radio 512)
answer_query-page_example =
    answer_query-page radio attesting (replicate 6 187 ∷ []) 0 512 (attestation ∷ []) []
      attesting-IsStored cache_reset-IsStored attesting-own attesting-cache

photo-IsEntry : IsEntry photo
photo-IsEntry = record { name = omega arith; size = omega arith; hash = refl }

entries_of : Option (List FileEntry × ℤ) → List FileEntry
entries_of none = []
entries_of (some (entries, next)) = entries

-- One file of this size, however many are asked for, and none where none is.
abbrev paged_file : UserFiles last_write
paged_file = record one_file {
  fs_list = λ disk offset limit. some (take limit (photo ∷ []), pos 0);
}

paged_file-IsPaged : IsPaged paged_file
unfolding entries_of
paged_file-IsPaged = record {
  entries_fit = λ disk offset limit entries next e.
      subst (λ es. All IsEntry es × (length es ≤ limit)) (ap entries_of e)
        (
          All-take IsEntry limit (photo ∷ []) (photo-IsEntry, tt),
          omega (arith, length-take limit (photo ∷ [])),
        );
}

-- The response to a listing of the one file.
abbrev listing : Bytes
listing = ls_response (photo ∷ []) (pos 0)

cmd_ls-fits_example : (length listing ≤ 182) × (length listing ≤ 512)
unfolding cmd_ls get_uint_or cbor_map_get_uint cbor_map_find response_budget ls_fitting
    ls_entry_size cbor_arg_size
cmd_ls-fits_example =
    cmd_ls-fits paged_file radio device [] 0 512 listing paged_file-IsPaged (omega arith)
      (omega arith) refl
