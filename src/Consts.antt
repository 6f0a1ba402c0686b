-- ===== src/Consts.antt =====
-- The constants of common/consts.go, by group.
pub mod TransType
pub mod SsCmd
pub mod EntityType
pub mod ServerStatus
use gogame.Common.{ℕ}

-- INVALID_GAMESVR_ID, INVALID_ID and the like.
abbrev pub invalid_id : ℕ
invalid_id = 0

-- Seconds without a packet after which a client is dropped.
abbrev pub tcp_ping_timeout : ℕ
tcp_ping_timeout = 300
