-- ===== src/Agent/Checks/Tests.antt =====
-- Three checks of a tick, two of them of one pooled module, and the theorem at them.

use mathlib.Core.List.Perm
use radar_node.Base.{
  ◌+◌, ◌≡◌, refl, String, Bool, true, false, none, some, List, [], ◌∷◌, map, All, str_eq,
  if◌then◌else◌, lookup, ◌==◌,
}
use radar_node.Wire.{
  ProbeSnapshot, Value, text, literal, object, array, last, element, closed, member, get_member,
}
use radar_node.Agent.Tick.{CheckJob}
use radar_node.Agent.Checks.{
  World, ProbeResult, destination_for, xray_destination, endpoint_destination, run_check,
  batch_results, run_check_batch, add_to_batch, split_jobs, dispatch, run_work, collect, run_checks,
}
use radar_node.Agent.Checks.Totals.{count}
use radar_node.Agent.Checks.Account.{Unreported, run_of_result, run_of_job, run_checks-accounted}

abbrev server : Value
server = object (member "address" (text "a.example") (member "port" (literal "443") closed))

abbrev config : Value
config = object (
    member "outbounds"
      (array (
        element
          (object (
            member "settings"
              (object (
                member "vnext" (array last)
                  (member "servers" (array (element server last)) closed)))
              closed))
          last))
      closed)

abbrev probe_of : String → String → ProbeSnapshot
probe_of id prober = record {
  id = id;
  target = "example.org";
  prober = prober;
  probe_count = 1;
  timeout_ms = 0;
  schedule_type = "interval";
  interval_seconds = 60;
  starts_at = 0;
  ends_at = 0;
  params = ("config", config) ∷ [];
  status = "active";
}

abbrev job : String → String → String → CheckJob
job id prober run_id = record { pr = probe_of id prober; run_id = run_id; seq = 1 }

abbrev answer : Bool → ProbeResult
answer skip = record {
  skip = skip;
  ok = true;
  check_type = "t";
  target = "example.org";
  seq = 1;
  latency_ms = none;
  error = "";
  error_code = "";
  extra = [];
}

-- The second check of a batch is skipped.
abbrev world : World
world = record {
  checker = λ prober. if str_eq prober "xray" then some true else some false;
  clears = λ j d. true;
  check = λ j o. answer false;
  check_batch = λ prober os i. answer (i == 1);
  finish = λ ks. ks;
  unknown_prober = λ prober. "unknown prober";
  print = λ v. "443";
  stamp = λ j. "now";
}

abbrev jobs : List CheckJob
jobs = job "x1" "xray" "r1" ∷ job "t1" "tcp" "r2" ∷ job "x2" "xray" "r3" ∷ []

real_server : destination_for world (probe_of "x1" "xray") ≡ "a.example:443"
unfolding destination_for xray_destination endpoint_destination get_member lookup
real_server = refl

two_reported : map run_of_result (run_checks world jobs) ≡ ("r1", "x1") ∷ ("r2", "t1") ∷ []
unfolding run_checks collect run_work run_check run_check_batch batch_results dispatch split_jobs
    add_to_batch
two_reported = refl

run_checks-accounted_example :
    (left_out : List CheckJob) × ((p : String × String → Bool)
      → count (λ r. p (run_of_result r)) (run_checks world jobs)
          + count (λ j. p (run_of_job j)) left_out
        ≡ count (λ j. p (run_of_job j)) jobs)
    × All (Unreported world (dispatch world jobs)) left_out
run_checks-accounted_example = run_checks-accounted world jobs (Perm.refl (dispatch world jobs))
