-- ===== src/Tests/Overlaps.antt =====
-- Starts that overlap, on the operating systems of the other tests.
use crosspoint_simulator_mcp.Prelude.{◌≡◌, refl, true, some, List, [], ◌∷◌, ok, string_eq, nat_eq}
use crosspoint_simulator_mcp.Prelude.Dict
use crosspoint_simulator_mcp.Spawn.Supervisor.{contains, reserve}
use crosspoint_simulator_mcp.Spawn.Supervisor.Overlaps.{
  SpawnAction, begins, finishes, looks, reaps, Starts, act_spawn, run_spawn, spares_starts,
}
use crosspoint_simulator_mcp.Spawn.Supervisor.Overlaps.Outcome.{
  fresh, Stores, run_spawn-Stores, reap-doubles,
}
use crosspoint_simulator_mcp.Tests.Ended.{mortal}
use crosspoint_simulator_mcp.Tests.Spawns.{idle}

-- Two ids are started at once, one twice, and a third id is reaped.
abbrev actions : List (SpawnAction mortal)
actions = begins "a" ∷ begins "b" ∷ begins "a" ∷ reaps "c" ∷ finishes "b" [] (ok 8) ∷ looks "b" ∷ []

abbrev starts : Starts mortal
starts = fresh mortal idle.config []

actions_spare : spares_starts mortal starts actions ≡ true
unfolding spares_starts crosspoint_simulator_mcp.Spawn.Supervisor.new_supervisor Dict.lookup
actions_spare = refl

a_under_way : contains mortal "a" (run_spawn mortal starts actions).pending ≡ true
unfolding run_spawn crosspoint_simulator_mcp.Spawn.Supervisor.new_supervisor Dict.lookup
a_under_way = refl

run_spawn-Stores_example :
    let r = run_spawn mortal starts actions in
    Stores mortal r "a" 7 (3 ∷ []) (act_spawn mortal r (finishes "a" (3 ∷ []) (ok 7)))
run_spawn-Stores_example =
    run_spawn-Stores mortal idle.config [] actions "a" (3 ∷ []) 7 actions_spare a_under_way

a_free : (reserve mortal starts.supervisor "a").1 ≡ ok tt
unfolding reserve crosspoint_simulator_mcp.Spawn.Supervisor.new_supervisor Dict.lookup
a_free = refl

reap-doubles_example :
    let r = run_spawn mortal starts (
      begins "a" ∷ reaps "a" ∷ begins "a" ∷ finishes "a" [] (ok 7) ∷ finishes "a" [] (ok 8) ∷ []) in
    (r.supervisor.world ≡ 7 ∷ []) × (Dict.lookup "a" r.supervisor.children ≡ some 8)
reap-doubles_example = reap-doubles mortal starts "a" [] [] 7 8 a_free
