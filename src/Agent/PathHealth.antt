-- ===== src/Agent/PathHealth.antt =====
-- The rolling window over recent checks, internal/agent/pathhealth.go. `lower` is strings.ToLower. The
-- ratio of the code, 0.70, is compared as 7 to 10: no count comes near 2^50, where the quotient in
-- floating point would differ.
pub mod Targets
pub mod Window
mod Tests
use radar_node.Base.{
  ℕ, suc, ◌-◌, ◌*◌, Bool, true, false, not, ◌&&◌, ◌||◌, String, List, [], ◌∷◌, ltb, leb, str_eq,
  if◌then◌else◌, any, length,
}
use radar_node.Agent.Clock.{seconds, is_zero}
use radar_node.Module.Placeholder.{Text, codes}

abbrev pub path_health_window : ℕ
path_health_window = seconds 60

abbrev pub path_min_targets : ℕ
path_min_targets = 5

abbrev pub path_max_tracked_hosts : ℕ
path_max_tracked_hosts = 4096

-- The error of a check is a text; its code is one of a fixed set.
pub record Check : Type 0 where
  pub target : String
  pub err_text : Text
  pub err_code : String
  pub at : ℕ

-- `targets` is a set, as the list of its members.
pub record PathHealth : Type 0 where
  pub window_start : ℕ
  pub total : ℕ
  pub network_errors : ℕ
  pub targets : List String

abbrev pub new_path_health : PathHealth
new_path_health = record { window_start = 0; total = 0; network_errors = 0; targets = [] }

-- `resetLocked`.
unfoldable pub reset : ℕ → PathHealth → PathHealth
reset now p =
    if is_zero p.window_start || leb path_health_window (now - p.window_start)
    then record { window_start = now; total = 0; network_errors = 0; targets = [] }
    else p

abbrev pub is_prefix : Text → Text → Bool
is_prefix [] cs = true
is_prefix (m ∷ ms) [] = false
is_prefix (m ∷ ms) (c ∷ cs) = leb m c && leb c m && is_prefix ms cs

-- `strings.Contains`.
abbrev pub contains : Text → Text → Bool
contains marker [] = is_prefix marker []
contains marker (c ∷ cs) = is_prefix marker (c ∷ cs) || contains marker cs

unfoldable pub markers : List Text
markers =
    codes "timeout"
    ∷ codes "deadline exceeded"
    ∷ codes "connection refused"
    ∷ codes "connection reset"
    ∷ codes "no such host"
    ∷ codes "network is unreachable"
    ∷ codes "network is down"
    ∷ codes "i/o timeout"
    ∷ codes "dial tcp"
    ∷ codes "dial udp"
    ∷ codes "connect: "
    ∷ codes "read: "
    ∷ codes "write: "
    ∷ codes "eof"
    ∷ []

abbrev pub is_empty : Text → Bool
is_empty [] = true
is_empty (c ∷ cs) = false

abbrev pub is_misconfigured : String → Bool
is_misconfigured code = str_eq code "invalid_params"

-- `p.targets[target] = struct{}{}`.
abbrev pub add_target : String → List String → List String
add_target target ts = if any (str_eq target) ts then ts else target ∷ ts

unfoldable pub track : String → List String → List String
track target ts =
    if not (str_eq target "") && ltb (length ts) path_max_tracked_hosts
    then add_target target ts
    else ts

-- The test of `state`.
unfoldable pub is_degraded : PathHealth → Bool
is_degraded p =
    leb path_min_targets (length p.targets)
    && ltb 0 p.total
    && leb (7 * p.total) (10 * p.network_errors)

-- `state`: the window may be reset, and the answer is "degraded" or "ok".
unfoldable pub state : ℕ → PathHealth → PathHealth × String
state now p = let q = reset now p in (q, if is_degraded q then "degraded" else "ok")

module _ (lower : Text → Text) where
  -- `isNetworkError`.
  unfoldable pub is_network_error : Text → String → Bool
  is_network_error text code =
      if is_misconfigured code || is_empty text
      then false
      else any (λ marker. contains marker (lower text)) markers

  unfoldable pub counted : Check → PathHealth → PathHealth
  counted c p = record p {
    total = suc p.total;
    targets = track c.target p.targets;
    network_errors =
        if is_network_error c.err_text c.err_code then suc p.network_errors else p.network_errors;
  }

  -- `record`.
  unfoldable pub record_check : Check → PathHealth → PathHealth
  record_check c p = if is_misconfigured c.err_code then p else counted c (reset c.at p)
