-- ===== src/Consts/TransType.antt =====
-- How a server message is addressed (common/consts.go); an int8 is its bit pattern, and `none_type` is -1.
use gogame.Common.{ℕ}

abbrev pub none_type : ℕ
none_type = 255

abbrev pub by_key : ℕ
by_key = 1

abbrev pub broadcast : ℕ
broadcast = 2

abbrev pub group : ℕ
group = 3
