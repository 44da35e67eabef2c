-- ===== src/Constants.antt =====
-- firmware/core/constants.h: the numbers that the modelled parts use.
use waxwing.Common.{ℕ}

abbrev pub mesh_grace_ms : ℕ
mesh_grace_ms = 10000

abbrev pub mesh_dwell_min_ms : ℕ
mesh_dwell_min_ms = 1000

abbrev pub mesh_dwell_max_ms : ℕ
mesh_dwell_max_ms = 5000

abbrev pub mesh_dwell_jitter_pct : ℕ
mesh_dwell_jitter_pct = 20

abbrev pub peer_success_backoff_ms : ℕ
peer_success_backoff_ms = 21600000

abbrev pub peer_failed_backoff_ms : ℕ
peer_failed_backoff_ms = 30000

abbrev pub peer_table_cap : ℕ
peer_table_cap = 32

abbrev pub peer_tpk_prefix_len : ℕ
peer_tpk_prefix_len = 8
