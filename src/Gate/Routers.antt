-- ===== src/Gate/Routers.antt =====
-- The game and team servers that the gate's routers report: `RouterMgr` of gamegate/router.go.
-- A router is a reference. Ids of servers come as int32 words and are kept as uint16.
use gogame.Common.{
  ℕ, ◌%◌, ◌^◌, Bool, true, false, List, [], ◌∷◌, none, some, ◌==◌, if◌then◌else◌, length, get_or,
  map,
}
use gogame.Common.Assoc
use gogame.Consts.ServerStatus

pub record RouterMgr : Type 0 where
  pub router_mgr : List (ℕ × ℕ)
  pub cross_router_mgr : List (ℕ × ℕ)
  pub router_map : List (List ℕ)
  pub svr_list : List (ℕ × ℕ)
  pub team_ids : List ℕ

unfoldable pub new_router_mgr : RouterMgr
new_router_mgr = record {
  router_mgr = [];
  cross_router_mgr = [];
  router_map = [];
  svr_list = [];
  team_ids = [];
}

-- The servers of one router, and the map without them.
unfoldable pub servers_of : ℕ → List (ℕ × ℕ) → List ℕ
servers_of router [] = []
servers_of router ((id, r) ∷ m) =
    let rest = servers_of router m in if r == router then id ∷ rest else rest

unfoldable pub without_router : ℕ → List (ℕ × ℕ) → List (ℕ × ℕ)
without_router router [] = []
without_router router ((id, r) ∷ m) =
    let rest = without_router router m in if r == router then rest else (id, r) ∷ rest

-- `for _, id := range svrIds { m[uint16(id)] = router }`
unfoldable pub insert_all : List ℕ → ℕ → List (ℕ × ℕ) → List (ℕ × ℕ)
unfolding Assoc.insert
insert_all [] router m = m
insert_all (id ∷ ids) router m = insert_all ids router (Assoc.insert (id % 2 ^ 16) router m)

-- `util.IsInt32InSlice`
unfoldable pub is_in_slice : List ℕ → ℕ → Bool
is_in_slice [] v = false
is_in_slice (x ∷ xs) v = let rest = is_in_slice xs v in if x == v then true else rest

unfoldable pub missing_from : List ℕ → List ℕ → List ℕ
unfolding is_in_slice
missing_from ids [] = []
missing_from ids (old ∷ olds) =
    let rest = missing_from ids olds in if is_in_slice ids old then rest else old ∷ rest

-- `AddRouterServer`: the manager after it, and the servers that are closed.
unfoldable pub add_router_server : List ℕ → ℕ → RouterMgr → RouterMgr × List ℕ
unfolding servers_of without_router insert_all missing_from
add_router_server ids router m =
    let olds = servers_of router m.router_mgr in
    let rest = without_router router m.router_mgr in
    (record m { router_mgr = insert_all ids router rest }, missing_from ids olds)

abbrev pub keys : List (ℕ × ℕ) → List ℕ
keys m = map (λ entry. entry.0) m

unfoldable pub add_cross_router_server : List ℕ → ℕ → RouterMgr → RouterMgr
unfolding without_router insert_all
add_cross_router_server ids router m =
    let cross = insert_all ids router (without_router router m.cross_router_mgr) in
    record m { cross_router_mgr = cross; team_ids = keys cross }

abbrev pub same_addr : List ℕ → List ℕ → Bool
same_addr [] [] = true
same_addr (a ∷ x) (b ∷ y) = let rest = same_addr x y in if a == b then rest else false
same_addr _ _ = false

unfoldable pub without_addr : List ℕ → List (List ℕ) → List (List ℕ)
without_addr addr [] = []
without_addr addr (a ∷ addrs) =
    let rest = without_addr addr addrs in if same_addr a addr then rest else a ∷ rest

unfoldable pub remove_svrs : ℕ → List ℕ → RouterMgr → RouterMgr
unfolding without_router without_addr
remove_svrs router addr m =
    let cross = without_router router m.cross_router_mgr in
    record m {
      router_mgr = without_router router m.router_mgr;
      cross_router_mgr = cross;
      team_ids = keys cross;
      router_map = without_addr addr m.router_map;
    }

unfoldable pub game_svr_alive : ℕ → RouterMgr → Bool
unfolding Assoc.lookup
game_svr_alive id m = elim (Assoc.lookup id m.svr_list) [ none ↦ false | some status ↦ true ]

unfoldable pub open_servers : List (ℕ × ℕ) → List ℕ
open_servers [] = []
open_servers ((id, status) ∷ m) =
    let rest = open_servers m in if status == ServerStatus.open_status then id ∷ rest else rest

-- `DispatchGameSvr`: `rand.Intn` gives the index, below the number of the servers.
unfoldable pub dispatch_game_svr : (ℕ → ℕ) → RouterMgr → ℕ
unfolding open_servers
dispatch_game_svr random m =
    let available = open_servers m.svr_list in
    if length available == 0 then 0 else get_or available (random (length available)) 0
