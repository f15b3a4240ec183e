-- ===== src/Boot.antt =====
-- `vita_handoff_t` of include/vita/boot.h, by the fields that the hosted modules read.
use vita_os.Prelude.{ℕ, Option}
use vita_os.Text.{Bytes}

pub record Handoff : Type 0 where
  pub arch_name : Option Bytes
  pub firmware_type : ℕ
  pub audit_db_path : Option Bytes
  pub vitanet_seed_endpoint : Option Bytes

-- VITA_FIRMWARE_HOSTED
abbrev pub firmware_hosted : ℕ
firmware_hosted = 2
