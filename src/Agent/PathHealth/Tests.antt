-- ===== src/Agent/PathHealth/Tests.antt =====
-- Six checks of five targets within a minute, and the theorem at them.
use Prim.Native.Nat.{ℕ}
use radar_node.Base.{◌+◌, ◌<◌, ◌≤◌, ◌≡◌, refl, arith, ◌↔◌, String, List, [], ◌∷◌, retain, leb, ◌*◌}
use radar_node.Module.Placeholder.{Text, codes}
use radar_node.Agent.PathHealth.{
  PathHealth, state, path_health_window, is_network_error, reset, record_check, counted, track,
  is_degraded, markers,
}
use radar_node.Agent.PathHealth.Window.Resets.{checked, Event, performed, Degraded, informative}
use radar_node.Agent.PathHealth.Window.{state-degraded}

abbrev lower : Text → Text
lower t = t

abbrev second : ℕ
second = 1_000_000_000

abbrev fails : String → ℕ → Event
fails target s = checked (record {
  target = target;
  err_text = codes "dial tcp: timeout";
  err_code = "";
  at = s * second;
})

abbrev wrong : ℕ → Event
wrong s =
    checked (record {
      target = "a";
      err_text = codes "404";
      err_code = "invalid_params";
      at = s * second;
    })

-- The newest first; the first check lies in an earlier window.
abbrev events : List Event
events =
    fails "e" 99
    ∷ fails "d" 98
    ∷ wrong 97
    ∷ fails "c" 96
    ∷ fails "b" 95
    ∷ fails "a" 94
    ∷ fails "z" 10
    ∷ []

degraded_now : (state (100 * second) (performed lower events)).1 ≡ "degraded"
unfolding state reset record_check counted track is_degraded is_network_error markers
degraded_now = refl

state-degraded_example :
    let answer : PathHealth × String = state (100 * second) (performed lower events) in
    (answer.0.window_start ≤ 100 * second)
    × (100 * second < answer.0.window_start + path_health_window)
    × ((answer.1 ≡ "degraded")
        ↔ Degraded lower (retain (λ c. leb answer.0.window_start c.at) (informative events)))
state-degraded_example = state-degraded lower (100 * second) events (omega arith)
