-- ===== src/Module/Pool/Batch/Tests.antt =====
-- A batch with a duplicate and an invalid option, and the theorem at it.
use radar_node.Base.{
  ℕ, ◌≡◌, refl, Bool, true, false, String, none, some, List, [], ◌∷◌, All, get_elem?, lookup,
  insert, arith,
}
use radar_node.Wire.{Value, text}
use radar_node.Module.Pool.Slot.{empty_slot, acquire, acquire_from, rebuild_slot}
use radar_node.Module.Pool.Ports.{allocate_unique_port_in_range}
use radar_node.Module.Pool.Pins.{Unshared, run_slots-Unshared}
use radar_node.Module.Pool.Run.{
  Options, PendingJob, run_slot, run_jobs, allocate_jobs, pin, allocate_pool_port, PoolState,
  JobReport, World,
}
use radar_node.Module.Pool.Batch.{
  Module, zero_result, collect_jobs, run_groups, check_batch, run_slots,
}
use radar_node.Module.Pool.Batch.Groups.{verdict, key_of}
use radar_node.Module.Pool.Batch.Complete.{Answers, IsReported, check_batch-Answers}

abbrev asked : String → ℕ → List (String × Value) → Options
asked target seq params = record {
  target = target;
  timeout = 1;
  seq = seq;
  params = params;
  bind = "";
}

abbrev config : List (String × Value)
config = ("config", text "c") ∷ []

abbrev options : List Options
options = asked "a" 1 config ∷ asked "b" 1 [] ∷ asked "a" 2 config ∷ []

abbrev xray : Module
xray = record {
  request =
      record {
        name = "config";
        field_type = "string";
        is_required = true;
        is_primary = false;
        is_summary = false;
      }
      ∷ [];
  min_timeout_ms = 5;
  max_jobs = 60;
}

-- An engine that always starts, whose tests report the port.
abbrev world : World ℕ
world = record {
  jobs_limit = 40;
  port_base = 20000;
  port_span = 10;
  free = λ port. true;
  answers = λ key. [];
  released = λ key. false;
  realloc = λ key. none;
  healthy = λ slot. true;
  hash_jobs = λ jobs. "h";
  build = λ jobs. none;
  contains = λ t part. false;
  test_job = λ j. j.port;
}

abbrev parses : String → Bool
parses t = false

abbrev digest : String → ℕ → List (String × Value) → String → String
digest target timeout params bind = target

abbrev less : String → String → Bool
less a b = false

abbrev cold : PoolState
cold = record { ports = []; slots = λ slot. empty_slot }

check_batch-Answers_example :
    let gs = (collect_jobs parses digest xray 0 options (λ i. zero_result {M = ℕ}, [])).1 in
    let reports = (run_groups less world xray gs cold).1 in
    (slot_said : String → JobReport ℕ) × All (λ e. e.1 ≡ slot_said e.0.key) reports
    × ((i : ℕ) (o : Options)
        → get_elem? options i ≡ some o
        → IsReported
            (key_of parses digest xray options o)
            reports
            (verdict parses digest xray options o)
          × Answers parses digest xray options slot_said o
              (verdict parses digest xray options o)
              ((check_batch parses digest less world xray options cold).1 i))
check_batch-Answers_example =
    check_batch-Answers parses digest xray options less world cold (omega arith)

abbrev one_job : List PendingJob
one_job = record { idx = 0; key = "a"; o = asked "a" 1 config } ∷ []

abbrev warm : PoolState
warm = record { ports = ("b", 20000) ∷ []; slots = λ slot. empty_slot }

run_slots-Unshared_example : Unshared (run_slots world 40 ("a" ∷ "b" ∷ []) 1 0 one_job warm).0.ports
run_slots-Unshared_example =
    run_slots-Unshared world (λ key. refl) 40 ("a" ∷ "b" ∷ []) 1 0 one_job warm (refl, tt)
      (refl, tt)

pinned :
    (run_slots world 40 ("a" ∷ "b" ∷ []) 1 0 one_job warm).0.ports
    ≡ ("b", 20000) ∷ ("a", 20001) ∷ []
unfolding run_slots run_slot run_jobs allocate_jobs pin allocate_pool_port
    allocate_unique_port_in_range acquire acquire_from rebuild_slot lookup insert
pinned = refl
