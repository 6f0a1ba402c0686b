-- ===== src/Consts/ServerStatus.antt =====
-- The running states of a server (common/consts.go).
use gogame.Common.{ℕ}

abbrev pub open_status : ℕ
open_status = 1

abbrev pub close_status : ℕ
close_status = 2

abbrev pub full_status : ℕ
full_status = 3
