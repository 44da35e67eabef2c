-- ===== src/Lib.antt =====
-- The firmware core of the waxwing mesh: the C code under firmware/core, which every port links.
--
-- Two nodes that meet run a signed handshake and keep the record of it. cborencode.c and cbor_decode.c
-- are the canonical encoding under everything; encounter_record.c builds, reads, checks and names the
-- record that both sides sign; encounter_session.c exchanges it in three messages, PROPOSE, ACCEPT and
-- CONFIRM. mesh_state.c decides when a node advertises and when it scans, peer_table.c whether a peer
-- that was seen is worth a connection, peer_ledger.c keeps the totals of each peer over restarts, and
-- meeting_count.c and manifest_counter.c keep two counters over restarts. These last three write through
-- filestore.h, the signatures come through hal_crypto.h. ssid_scan.c keeps the access points whose
-- addresses go into the record. encounters.c signs such scans for the device's own companion,
-- attestations.c and attest_cache.c keep what companions attested, and attest_query.c looks it up.
-- commands.c answers the CBOR commands of the companion and of peers over all of these and the user
-- files.
--
-- Which module models what, paths from the root of the repository:
--   Common               numbers, lists, options and byte buffers that all parts share
--   Constants            firmware/core/constants.h
--   Cbor.Encode          firmware/core/cborencode.c, under the names of its functions
--   Cbor.Decode          firmware/core/cbor_decode.c; a case of the switch is a function parse_…
--   Cbor.*               what the encoders write and the parser returns, and how they fit together
--   HalCrypto            firmware/core/hal_crypto.h, a record of functions that the callers take
--   Filestore            firmware/core/filestore.h, the calls on system blobs, likewise
--   BlobRing             the ring that attestations.c, attest_cache.c and encounters.c share, line by
--                        line, over the constants in which they differ
--   Attestations         firmware/core/attestations.c
--   AttestCache          firmware/core/attest_cache.c
--   AttestQuery          firmware/core/attest_query.c
--   Encounters           firmware/core/encounters.c
--   Commands             firmware/core/commands.c, its handlers in Commands.Files, Transfer, Pages and
--                        Attest, the dispatch in Commands.Dispatch; Commands.Fitting and Envelope
--                        say what a page of stored records is and how long it gets
--   EncounterRecord      firmware/core/encounter_record.c
--   EncounterSession     firmware/core/encounter_session.c, its messages in EncounterSession.Message
--   PeerTable            firmware/core/peer_table.c
--   PeerLedger           firmware/core/peer_ledger.c
--   MeshState            firmware/core/mesh_state.c
--   MeetingCount         firmware/core/meeting_count.c
--   ManifestCounter      firmware/core/manifest_counter.c
--   SsidScan             firmware/core/ssid_scan.c
--   Identity             firmware/core/identity.c; Identity.Names has the strings of the key
--
-- A pointer into a buffer, together with the buffer's end, is the list of the bytes between them. A
-- pointer past the end is not a value of the model: an advance stops at the end, so what keeps the code
-- inside its buffers is stated by its guards and by lengths. A function that returns false, 0 or -1 for a failure
-- returns an option. Static state is passed along; integers of w bits keep their `% 2 ^ w`. A fixed
-- array with its count is the list of the entries in use. A ring's walk calls back with the state that
-- the callback gives, and a flag that stops it. The loops over the children of an array or a
-- map run on the count that the header announces; the nesting of the parser runs on the levels that the
-- code's own limit leaves, nine at the start, so neither needs fuel. The search for a file by its hash
-- runs on fuel, 2^31 rounds: each advances an offset that is an `int`.
--
-- Parameters: the signature functions (the key that belongs to a seed accepts what was signed with the
-- seed, a signature has 64 bytes, a key 32), the hash, the random generator (an identity gets 32 bytes
-- of it), the callbacks of the session and of the walks, the file store (a read gives what the last
-- write of the blob wrote, if that succeeded), the calls on user files (the offset of a next page is an
-- `int`), the MTU and the last scan.
--
-- Not modelled: NULL arguments; the members of a session in the error state, which no call reads;
-- peer_sync.c; the room in the buffer of a response beyond the checks that commands.c makes; the ports
-- with their radio, display and file system code; the vendored libraries; the companion app.
pub mod Common
pub mod AttestCache
pub mod AttestQuery
pub mod Attestations
pub mod BlobRing
pub mod Cbor
pub mod HalCrypto
pub mod EncounterRecord
pub mod EncounterSession
pub mod Commands
pub mod Constants
pub mod PeerTable
pub mod MeshState
pub mod Encounters
pub mod Filestore
pub mod MeetingCount
pub mod PeerLedger
pub mod ManifestCounter
pub mod SsidScan
pub mod Identity
