-- ===== src/Agent/Install/Tests.antt =====
-- A command whose values hold quotes and blanks, and the theorem at it.
use radar_node.Base.{◌≡◌, refl, some, none, List, [], ◌∷◌, ◌++◌, All}
use radar_node.Module.Placeholder.{Text, codes}
use radar_node.Agent.Install.{
  Installer, install_arguments, install_words, shell_quote, module_action_flags, action_flag,
  curl_proxy_flag,
}
use radar_node.Agent.Install.Shell.{read, read_line, plain}
use radar_node.Agent.Install.Quoting.{meant, proxy_words, IsModuleFlag, install_command-read}

abbrev node : Installer
node = record {
  node_id = codes "node 1";
  api_key = codes "it's;$(reboot)";
  api_url = codes "https://api.example.org";
  proxy_url = codes "socks5://h:1";
}

abbrev actions : List Text
actions = codes "install_xray; rm -rf /" ∷ codes "noop" ∷ codes "remove_wg" ∷ []

quoted_key :
    shell_quote (codes "it's")
    ≡ 0x27 ∷ (codes "it" ++ (0x27 ∷ 0x5c ∷ 0x27 ∷ 0x27 ∷ codes "s") ++ 0x27 ∷ [])
unfolding shell_quote
quoted_key = refl

command_read :
    read_line (install_arguments node (module_action_flags actions) ++ 0x0a ∷ codes "rest")
    ≡ some (
      codes "--node_id=node 1"
          ∷ codes "--api_key=it's;$(reboot)"
          ∷ codes "--api_url=https://api.example.org"
          ∷ codes "--proxy=socks5://h:1"
          ∷ codes "--install-module=xray; rm -rf /"
          ∷ codes "--remove-module=wg"
          ∷ [],
      codes "rest",
    )
unfolding read_line read install_arguments install_words shell_quote module_action_flags action_flag
command_read = refl

install_command-read_example :
    (read_line (install_arguments node (module_action_flags actions) ++ 0x0a ∷ codes "rest")
      ≡ some (meant node (module_action_flags actions), codes "rest"))
    × All IsModuleFlag (module_action_flags actions)
    × (read plain none [] (curl_proxy_flag node.proxy_url ++ codes "rest")
        ≡ read plain none ([] ++ proxy_words node.proxy_url) (codes "rest"))
install_command-read_example = install_command-read node actions (codes "rest") []
