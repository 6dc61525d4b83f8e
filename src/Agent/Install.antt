-- ===== src/Agent/Install.antt =====
-- How internal/agent/agent.go hands values to the shell that runs the installer: shellQuote,
-- moduleActionFlags and the arguments of buildInstallCommand. A text is the list of its code points.
-- The fixed lines of the script around the arguments are not modelled.
pub mod Shell
pub mod Quoting
mod Tests
use radar_node.Base.{ℕ, ◌==◌, Option, none, some, List, [], ◌∷◌, ◌++◌, map, if◌then◌else◌}
use radar_node.Module.Placeholder.{Text, codes, strip}

-- `strings.ReplaceAll(value, "'", "'\\''")`.
abbrev pub escape_quotes : Text → Text
escape_quotes [] = []
escape_quotes (c ∷ cs) =
    let rest = escape_quotes cs in if c == 0x27 then 0x27 ∷ 0x5c ∷ 0x27 ∷ 0x27 ∷ rest else c ∷ rest

-- `shellQuote`.
unfoldable pub shell_quote : Text → Text
shell_quote value = 0x27 ∷ (escape_quotes value ++ 0x27 ∷ [])

-- `moduleActionFlags`: an action with neither prefix is dropped.
unfoldable pub action_flag : Text → Option Text
action_flag action = elim (strip (codes "install_") action) [
  | some name ↦ some (codes "--install-module=" ++ name)
  | none ↦ elim (strip (codes "remove_") action) [
    | some name ↦ some (codes "--remove-module=" ++ name)
    | none ↦ none
  ]
]

unfoldable pub module_action_flags : List Text → List Text
module_action_flags [] = []
module_action_flags (a ∷ actions) = elim (action_flag a) [
  | some flag ↦ flag ∷ module_action_flags actions
  | none ↦ module_action_flags actions
]

-- The values of the agent that the command is made of; `proxy_url` is empty without a proxy.
pub record Installer : Type 0 where
  pub node_id : Text
  pub api_key : Text
  pub api_url : Text
  pub proxy_url : Text

abbrev pub proxy_argument : Text → List Text
proxy_argument [] = []
proxy_argument (c ∷ cs) = (codes "--proxy=" ++ shell_quote (c ∷ cs)) ∷ []

-- `curlProxyFlag`.
unfoldable pub curl_proxy_flag : Text → Text
curl_proxy_flag [] = []
curl_proxy_flag (c ∷ cs) = codes "--proxy " ++ (shell_quote (c ∷ cs) ++ codes " ")

-- `args` of `buildInstallCommand`.
unfoldable pub install_words : Installer → List Text → List Text
install_words a flags =
    (codes "--node_id=" ++ shell_quote a.node_id)
    ∷ (codes "--api_key=" ++ shell_quote a.api_key)
    ∷ (codes "--api_url=" ++ shell_quote a.api_url)
    ∷ (proxy_argument a.proxy_url ++ map shell_quote flags)

-- `strings.Join(args, " ")`.
abbrev pub join : List Text → Text
join [] = []
join (w ∷ []) = w
join (w ∷ v ∷ ws) = w ++ 0x20 ∷ join (v ∷ ws)

unfoldable pub install_arguments : Installer → List Text → Text
install_arguments a flags = join (install_words a flags)
