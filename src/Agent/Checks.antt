-- ===== src/Agent/Checks.antt =====
-- How a tick runs its checks, internal/agent/agent.go: runChecks with its two kinds of work, runCheck,
-- runCheckBatch, and the options of a check. A check is a module or a built-in: what it answers is an
-- argument, as are the destination's gate, the clock and the order in which the goroutines end.
pub mod Totals
pub mod Account
mod Tests
use Prim.Native.String.{◌++◌ as append}
use radar_node.Base.{
  ℕ, zero, suc, ◌+◌, ◌*◌, Bool, true, false, String, Option, none, some, List, [], ◌∷◌, ◌++◌, map,
  ◌==◌, str_eq, if◌then◌else◌, lookup, insert,
}
use radar_node.Wire.{
  ProbeSnapshot, Result, Latency, Value, text, array, element, Members, get_member, members_of,
}
use radar_node.Agent.Clock.{seconds}
use radar_node.Agent.Tick.{CheckJob}

-- The `probe.Options` of a check, without the agent's own binding.
pub record CheckOptions : Type 0 where
  pub target : String
  pub timeout : ℕ
  pub probe_id : String
  pub seq : ℕ
  pub params : List (String × Value)
  pub destination : String

-- `probe.Result`.
pub record ProbeResult : Type 0 where
  pub skip : Bool
  pub ok : Bool
  pub check_type : String
  pub target : String
  pub seq : ℕ
  pub latency_ms : Option Latency
  pub error : String
  pub error_code : String
  pub extra : List (String × Value)

-- A goroutine of `runChecks`.
pub data Work : Type 0 where
  single : CheckJob → Work
  batch : String → List CheckJob → Work

-- `checker` tells whether a prober is known, and whether it is a BatchChecker; `clears` whether the
-- gate lets a check through. A batch answers each place. `finish` is the order in which the goroutines
-- end, `print` prints a port, `stamp` the instant of a result.
pub record World : Type 0 where
  pub checker : String → Option Bool
  pub clears : CheckJob → String → Bool
  pub check : CheckJob → CheckOptions → ProbeResult
  pub check_batch : String → List CheckOptions → ℕ → ProbeResult
  pub finish : List Work → List Work
  pub unknown_prober : String → String
  pub print : Option Value → String
  pub stamp : CheckJob → String

-- The first element of `x.([]any)`.
abbrev pub first_of : Option Value → Option Value
first_of (some (array (element v vs))) = some v
first_of _ = none

abbrev pub or_else : Option Value → Option Value → Option Value
or_else (some v) w = some v
or_else none w = w

abbrev pub address_of : Option Value → Option String
address_of (some (text s)) = if str_eq s "" then none else some s
address_of _ = none

module _ (w : World) where
  -- `xrayDestination`.
  unfoldable pub endpoint_destination : Members → Option String
  endpoint_destination endpoint = elim (address_of (get_member "address" endpoint)) [
    | none ↦ none
    | some address ↦ some (append address (append ":" (w.print (get_member "port" endpoint))))
  ]

  unfoldable pub xray_destination : List (String × Value) → Option String
  xray_destination params =
      elim (first_of (get_member "outbounds" (members_of (lookup "config" params)))) [
        | none ↦ none
        | some outbound ↦
            let settings = members_of (get_member "settings" (members_of (some outbound))) in
            elim (or_else (first_of (get_member "vnext" settings))
              (first_of (get_member "servers" settings))) [
                | none ↦ none
                | some endpoint ↦ endpoint_destination (members_of (some endpoint))
              ]
      ]

  -- `destinationFor`.
  unfoldable pub destination_for : ProbeSnapshot → String
  destination_for pr =
      if str_eq pr.prober "xray"
      then elim (xray_destination pr.params) [ some d ↦ d | none ↦ pr.target ]
      else pr.target

  -- `optionsFor`.
  unfoldable pub options_for : ProbeSnapshot → ℕ → CheckOptions
  options_for pr seq = record {
    target = pr.target;
    timeout = if pr.timeout_ms == 0 then seconds 5 else pr.timeout_ms * 1_000_000;
    probe_id = pr.id;
    seq = seq;
    params = pr.params;
    destination = destination_for pr;
  }

  -- `probe.Fail` for an unknown prober.
  abbrev pub unknown : ProbeSnapshot → ℕ → ProbeResult
  unknown pr seq = record {
    skip = false;
    ok = false;
    check_type = pr.prober;
    target = pr.target;
    seq = seq;
    latency_ms = none;
    error = w.unknown_prober pr.prober;
    error_code = "";
    extra = [];
  }

  abbrev pub wire_result : CheckJob → ProbeResult → Result
  wire_result j r = record {
    run_id = j.run_id;
    probe_id = j.pr.id;
    ok = r.ok;
    prober = r.check_type;
    target = r.target;
    seq = r.seq;
    latency_ms = r.latency_ms;
    error = r.error;
    error_code = r.error_code;
    extra = r.extra;
    observed_at = w.stamp j;
  }

  -- `runCheck`: no result where the destination never cleared.
  unfoldable pub run_check : CheckJob → List Result
  run_check j =
      let opts = options_for j.pr j.seq in
      elim (w.checker j.pr.prober) [
        | none ↦ wire_result j (unknown j.pr j.seq) ∷ []
        | some _ ↦ if w.clears j opts.destination then wire_result j (w.check j opts) ∷ [] else []
      ]

  -- The results of a batch, from a place on: one for each job that was not skipped.
  unfoldable pub batch_results : (ℕ → ProbeResult) → ℕ → List CheckJob → List Result
  batch_results answers i [] = []
  batch_results answers i (j ∷ js) =
      let rest = batch_results answers (suc i) js in
      if (answers i).skip then rest else wire_result j (answers i) ∷ rest

  -- `runCheckBatch`.
  unfoldable pub run_check_batch : String → List CheckJob → List Result
  run_check_batch prober js =
      batch_results (w.check_batch prober (map (λ j. options_for j.pr j.seq) js)) 0 js

  -- `batches[prober] = append(batches[prober], j)`; the jobs of a batch stand in their order.
  unfoldable pub add_to_batch :
      CheckJob → List (String × List CheckJob) → List (String × List CheckJob)
  add_to_batch j [] = (j.pr.prober, j ∷ []) ∷ []
  add_to_batch j (b ∷ bs) =
      if str_eq b.0 j.pr.prober then (b.0, b.1 ++ j ∷ []) ∷ bs else b ∷ add_to_batch j bs

  abbrev pub is_batched : CheckJob → Bool
  is_batched j = elim (w.checker j.pr.prober) [ some true ↦ true | _ ↦ false ]

  -- The batches and the singles, as the loop over the jobs collects them.
  unfoldable pub split_jobs :
      List CheckJob
      → List (String × List CheckJob)
      → List CheckJob
      → List (String × List CheckJob) × List CheckJob
  split_jobs [] batches singles = (batches, singles)
  split_jobs (j ∷ js) batches singles =
      let batched = split_jobs js (add_to_batch j batches) singles in
      let alone = split_jobs js batches (singles ++ j ∷ []) in
      if is_batched j then batched else alone

  unfoldable pub dispatch : List CheckJob → List Work
  dispatch js =
      let (batches, singles) = split_jobs js [] [] in
      map (λ b. batch b.0 b.1) batches ++ map single singles

  unfoldable pub run_work : Work → List Result
  run_work (single j) = run_check j
  run_work (batch prober js) = run_check_batch prober js

  unfoldable pub collect : List Work → List Result
  collect [] = []
  collect (k ∷ ks) = run_work k ++ collect ks

  -- `runChecks`: the results in the order in which the goroutines end.
  unfoldable pub run_checks : List CheckJob → List Result
  run_checks js = collect (w.finish (dispatch js))
