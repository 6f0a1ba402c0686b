-- ===== src/Consts/EntityType.antt =====
-- The kinds of servers and clients (common/consts.go).
use gogame.Common.{ℕ}

abbrev pub client : ℕ
client = 1

abbrev pub portal : ℕ
portal = 2

abbrev pub game_svr : ℕ
game_svr = 3

abbrev pub team_svr : ℕ
team_svr = 6

abbrev pub router : ℕ
router = 8

abbrev pub im : ℕ
im = 9
