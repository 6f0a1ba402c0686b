-- ===== src/Consts/SsCmd.antt =====
-- The commands of server messages (common/consts.go), `iota + 1`.
use gogame.Common.{ℕ}

abbrev pub ready : ℕ
ready = 1

abbrev pub sync : ℕ
sync = 2

abbrev pub msg : ℕ
msg = 3

abbrev pub heartbeat : ℕ
heartbeat = 4

abbrev pub disconnect : ℕ
disconnect = 5
