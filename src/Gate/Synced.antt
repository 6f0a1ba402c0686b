-- ===== src/Gate/Synced.antt =====
-- The managers of gamegate/router.go as what they mean: for each server, the router that reports it.
-- A router's report replaces its earlier one; a router that is lost takes its servers along.
use gogame.Common.{ℕ, ◌≡◌, refl, ap, ◌∙◌, List, [], ◌∷◌, Option, none}
use gogame.Common.Assoc
use gogame.Gate.Routers.{
  RouterMgr, is_in_slice, add_router_server, add_cross_router_server, remove_svrs, new_router_mgr,
}
use gogame.Gate.Reported.{
  IsMap, unless_of, reported, is_some, without_router-IsMap, insert_all-IsMap, is_in_slice-keys,
  reported-lookup, lost-lookup,
}

pub data Event : Type 0 where
  games teams : List ℕ → (router : ℕ) → Event
  loses : (router : ℕ) → List ℕ → Event

unfoldable pub step : RouterMgr → Event → RouterMgr
unfolding add_router_server add_cross_router_server remove_svrs
step m (games ids router) = (add_router_server ids router m).0
step m (teams ids router) = add_cross_router_server ids router m
step m (loses router addr) = remove_svrs router addr m

unfoldable pub run : RouterMgr → List Event → RouterMgr
unfolding step
run m [] = m
run m (e ∷ es) = run (step m e) es

-- The specification: partial functions from game and team servers to routers.
pub record Owners : Type 0 where
  pub game : ℕ → Option ℕ
  pub team : ℕ → Option ℕ

unfoldable pub owners_step : Owners → Event → Owners
unfolding is_in_slice
owners_step o (games ids router) = record o { game = reported ids router o.game }
owners_step o (teams ids router) = record o { team = reported ids router o.team }
owners_step o (loses router addr) = record {
  game = λ id. unless_of router (o.game id);
  team = λ id. unless_of router (o.team id);
}

unfoldable pub owners_run : Owners → List Event → Owners
unfolding owners_step
owners_run o [] = o
owners_run o (e ∷ es) = owners_run (owners_step o e) es

-- The manager's maps are the functions, and its team servers those that have a router.
record IsSynced (m : RouterMgr) (o : Owners) : Type 0 where
  game_map : IsMap m.router_mgr
  team_map : IsMap m.cross_router_mgr
  game : (id : ℕ) → Assoc.lookup id m.router_mgr ≡ o.game id
  team : (id : ℕ) → Assoc.lookup id m.cross_router_mgr ≡ o.team id
  team_ids : (id : ℕ) → is_in_slice m.team_ids id ≡ is_some (o.team id)

step-IsSynced :
    (m : RouterMgr) (o : Owners) (e : Event) → IsSynced m o → IsSynced (step m e) (owners_step o e)
unfolding step owners_step add_router_server add_cross_router_server remove_svrs
step-IsSynced m o (games ids router) h = record {
  game_map = insert_all-IsMap ids router _ (without_router-IsMap router m.router_mgr h.game_map);
  team_map = h.team_map;
  game = reported-lookup ids router m.router_mgr o.game h.game_map h.game;
  team = h.team;
  team_ids = h.team_ids;
}
step-IsSynced m o (teams ids router) h =
    let found = reported-lookup ids router m.cross_router_mgr o.team h.team_map h.team in
    record {
      game_map = h.game_map;
      team_map =
          insert_all-IsMap ids router _ (without_router-IsMap router m.cross_router_mgr h.team_map);
      game = h.game;
      team = found;
      team_ids = λ id. is_in_slice-keys id _ ∙ ap is_some (found id);
    }
step-IsSynced m o (loses router addr) h =
    let found = lost-lookup router m.cross_router_mgr o.team h.team_map h.team in
    record {
      game_map = without_router-IsMap router m.router_mgr h.game_map;
      team_map = without_router-IsMap router m.cross_router_mgr h.team_map;
      game = lost-lookup router m.router_mgr o.game h.game_map h.game;
      team = found;
      team_ids = λ id. is_in_slice-keys id _ ∙ ap is_some (found id);
    }

run-IsSynced :
    (m : RouterMgr) (o : Owners) (es : List Event)
    → IsSynced m o
    → IsSynced (run m es) (owners_run o es)
unfolding run owners_run
run-IsSynced m o [] h = h
run-IsSynced m o (e ∷ es) h = run-IsSynced (step m e) (owners_step o e) es (step-IsSynced m o e h)

abbrev pub nothing : ℕ → Option ℕ
nothing id = none

-- After any reports of game and team servers by routers, and any losses of routers, in any order, the
-- manager that `NewRouterMgr` makes has for each server the router that the specification has, and
-- its list of team servers has exactly those with a router.
pub run-owners_run :
    (es : List Event) (id : ℕ)
    → let m = run new_router_mgr es in
      let o = owners_run (record { game = nothing; team = nothing }) es in
      (Assoc.lookup id m.router_mgr ≡ o.game id)
      × (Assoc.lookup id m.cross_router_mgr ≡ o.team id)
      × (is_in_slice m.team_ids id ≡ is_some (o.team id))
unfolding new_router_mgr Assoc.lookup is_in_slice IsMap
run-owners_run es id =
    let h =
      run-IsSynced new_router_mgr (record { game = nothing; team = nothing }) es
        (record {
          game_map = tt;
          team_map = tt;
          game = λ i. refl;
          team = λ i. refl;
          team_ids = λ i. refl;
        }) in
    (h.game id, h.team id, h.team_ids id)
