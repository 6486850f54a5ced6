-- ===== src/Future/Examples.antt =====
-- The theorems about futures at concrete ones.
use libtwilight.Prelude.{◌≡◌, true, [], ◌∷◌, none}
use libtwilight.Future.{create, act_all, reaching, waits, broadcasts, Wake, await}
use libtwilight.Future.Reached.{last_reached, first_result, await-first_result}

abbrev woken : Wake
woken = record { timed_out = true; actions = waits ∷ reaching 7 1 ∷ broadcasts ∷ [] }

await-first_result_example :
    await (act_all (create 0 0) []) (woken ∷ []) ≡ first_result (last_reached none []) (woken ∷ [])
await-first_result_example = await-first_result 0 0 [] (woken ∷ [])
