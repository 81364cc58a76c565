-- ===== src/Tests/Console.antt =====
-- Histories of the console, and its theorems at them.
use ai_routing_panel.Console.World.{
  has_key, settle, load_insights, clear_flash, start, settle_insights, call, step, Event, run,
}
use ai_routing_panel.Console.State.{answered, refused, Reply, Clock}
use ai_routing_panel.Js.{null, get, or_else, str, num, object, Value}
use ai_routing_panel.Tests.Samples.{plain}
use ai_routing_panel.Console.Apply.{start_insights}
use ai_routing_panel.Console.Busy.{run-busy, IsDistinct, keys}
use ai_routing_panel.Console.Actions.{diagnose_data_plane, run_dns_failover_check}
use ai_routing_panel.Console.Latest.{latest_insights}
use ai_routing_panel.Prelude.{All, false, true, List, [], ◌∷◌, ◌≡◌}

abbrev reply : Value
reply = object (("insights", num 7) ∷ [])

abbrev noon : Clock
noon = record { now = 5; date = 9 }

abbrev failed : Reply
failed = refused (record { message = str "no"; status = num 500 })

-- Two mutations and two repeated clicks, the second before a render, and the end of a callback.
abbrev clicks : List Event
clicks =
    call true run_dns_failover_check
    ∷ call true diagnose_data_plane
    ∷ call true run_dns_failover_check
    ∷ call false run_dns_failover_check
    ∷ settle 1 noon failed
    ∷ []

run-busy_example :
    All
      (λ k. has_key (keys (run plain clicks start).running) k ≡ true)
      (run plain clicks start).console.busy
    × IsDistinct (run plain clicks start).console.busy
run-busy_example = run-busy plain clicks

latest_insights_example :
    ((run plain (settle_insights 1 failed ∷ []) (
        step plain (settle_insights 2 (answered reply)) (
          run plain
            (clear_flash ∷ [])
            (step plain load_insights (step plain load_insights start))))).console.insights
      ≡ or_else (get reply "insights") null)
    × ((run plain (settle_insights 1 failed ∷ []) (
          step plain (settle_insights 2 (answered reply)) (
            run plain (clear_flash ∷ []) (
              step plain load_insights (step plain load_insights start))))).console.insights_loading
        ≡ false)
unfolding step start_insights
latest_insights_example =
    latest_insights plain (step plain load_insights start) (clear_flash ∷ [])
      (settle_insights 1 failed ∷ []) reply (tt, tt) (tt, tt)
