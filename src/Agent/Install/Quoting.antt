-- ===== src/Agent/Install/Quoting.antt =====
-- The shell reads the values that the installer's command quotes, and nothing else.
use radar_node.Base.{
  ◌≡◌, refl, arith, ◌⊎◌, inl, inr, Option-cases, Option, none, some, List, [], ◌∷◌, ◌++◌, All, map,
  append-nil, append_assoc,
}
use radar_node.Module.Placeholder.{Text, codes, strip}
use radar_node.Agent.Install.{
  Installer, escape_quotes, shell_quote, proxy_argument, curl_proxy_flag, install_words, join,
  install_arguments, action_flag, module_action_flags,
}
use radar_node.Agent.Install.Shell.{plain, quoted, read, read_line}

-- The characters of a quoted value join the word.
read-escape_quotes :
    (value rest w : Text) (ws : List Text)
    → read quoted (some w) ws (escape_quotes value ++ 0x27 ∷ rest)
      ≡ read plain (some (w ++ value)) ws rest
unfolding read
read-escape_quotes [] rest w ws = rw (append-nil w) refl
read-escape_quotes (c ∷ cs) rest w ws =
    ground (arith, read-escape_quotes cs rest (w ++ c ∷ []) ws, append_assoc w (c ∷ []) cs)

abbrev word_of : Option Text → Text
word_of none = []
word_of (some w) = w

read-shell_quote :
    (value rest : Text) (w : Option Text) (ws : List Text)
    → read plain w ws (shell_quote value ++ rest) ≡ read plain (some (word_of w ++ value)) ws rest
unfolding read shell_quote
read-shell_quote value rest none ws =
    rw (append_assoc (escape_quotes value) (0x27 ∷ []) rest) (read-escape_quotes value rest [] ws)
read-shell_quote value rest (some w) ws =
    rw (append_assoc (escape_quotes value) (0x27 ∷ []) rest) (read-escape_quotes value rest w ws)

-- At the start of a word the text is read as the word.
abbrev Reads : Text → Text → Type 0
Reads t w =
    (rest : Text) (ws : List Text) → read plain none ws (t ++ rest) ≡ read plain (some w) ws rest

shell_quote-Reads : (value : Text) → Reads (shell_quote value) value
shell_quote-Reads value rest ws = read-shell_quote value rest none ws

node_id-Reads : (v : Text) → Reads (codes "--node_id=" ++ shell_quote v) (codes "--node_id=" ++ v)
unfolding read
node_id-Reads v rest ws = read-shell_quote v rest (some (codes "--node_id=")) ws

api_key-Reads : (v : Text) → Reads (codes "--api_key=" ++ shell_quote v) (codes "--api_key=" ++ v)
unfolding read
api_key-Reads v rest ws = read-shell_quote v rest (some (codes "--api_key=")) ws

api_url-Reads : (v : Text) → Reads (codes "--api_url=" ++ shell_quote v) (codes "--api_url=" ++ v)
unfolding read
api_url-Reads v rest ws = read-shell_quote v rest (some (codes "--api_url=")) ws

proxy-Reads : (v : Text) → Reads (codes "--proxy=" ++ shell_quote v) (codes "--proxy=" ++ v)
unfolding read
proxy-Reads v rest ws = read-shell_quote v rest (some (codes "--proxy=")) ws

abbrev AllRead : List Text → List Text → Type 0
AllRead [] [] = Unit
AllRead [] (w ∷ ws) = ⊥
AllRead (t ∷ ts) [] = ⊥
AllRead (t ∷ ts) (w ∷ ws) = Reads t w × AllRead ts ws

map-AllRead : (flags : List Text) → AllRead (map shell_quote flags) flags
map-AllRead [] = tt
map-AllRead (f ∷ fs) = (shell_quote-Reads f, map-AllRead fs)

-- Joined by blanks, the texts are read as their words up to the end of the line.
read-join :
    (t w : Text) (ts ws : List Text)
    → Reads t w
    → AllRead ts ws
    → (before : List Text) (rest : Text)
    → read plain none before (join (t ∷ ts) ++ 0x0a ∷ rest) ≡ some (before ++ w ∷ ws, rest)
unfolding read
read-join t w [] [] h all before rest = h (0x0a ∷ rest) before
read-join t w [] (v ∷ vs) h all before rest = absurd all
read-join t w (u ∷ us) [] h all before rest = absurd all
read-join t w (u ∷ us) (v ∷ vs) h all before rest =
    rw
      (
        append_assoc t (0x20 ∷ join (u ∷ us)) (0x0a ∷ rest),
        h (0x20 ∷ (join (u ∷ us) ++ 0x0a ∷ rest)) before,
        read-join u v us vs all.0 all.1 (before ++ w ∷ []) rest,
        append_assoc before (w ∷ []) (v ∷ vs),
      )
      refl

abbrev proxy_word : Text → List Text
proxy_word [] = []
proxy_word (c ∷ cs) = (codes "--proxy=" ++ c ∷ cs) ∷ []

-- The arguments that the installer is meant to have.
abbrev pub meant : Installer → List Text → List Text
meant a flags =
    (codes "--node_id=" ++ a.node_id)
    ∷ (codes "--api_key=" ++ a.api_key)
    ∷ (codes "--api_url=" ++ a.api_url)
    ∷ (proxy_word a.proxy_url ++ flags)

tail-AllRead :
    (proxy : Text) (flags : List Text)
    → AllRead (proxy_argument proxy ++ map shell_quote flags) (proxy_word proxy ++ flags)
tail-AllRead [] flags = map-AllRead flags
tail-AllRead (c ∷ cs) flags = (proxy-Reads (c ∷ cs), map-AllRead flags)

module _ (a : Installer) where
  install_arguments-read :
      (flags : List Text) (rest : Text)
      → read_line (install_arguments a flags ++ 0x0a ∷ rest) ≡ some (meant a flags, rest)
  unfolding read_line install_arguments install_words
  install_arguments-read flags rest =
      read-join (codes "--node_id=" ++ shell_quote a.node_id) (codes "--node_id=" ++ a.node_id)
        ((codes "--api_key=" ++ shell_quote a.api_key)
          ∷ (codes "--api_url=" ++ shell_quote a.api_url)
          ∷ (proxy_argument a.proxy_url ++ map shell_quote flags))
        ((codes "--api_key=" ++ a.api_key)
          ∷ (codes "--api_url=" ++ a.api_url)
          ∷ (proxy_word a.proxy_url ++ flags))
        (node_id-Reads a.node_id)
        (api_key-Reads a.api_key, (api_url-Reads a.api_url, tail-AllRead a.proxy_url flags)) [] rest

-- The words of curl's option for the proxy.
abbrev pub proxy_words : Text → List Text
proxy_words [] = []
proxy_words (c ∷ cs) = codes "--proxy" ∷ (c ∷ cs) ∷ []

curl_proxy_flag-read :
    (proxy rest : Text) (ws : List Text)
    → read plain none ws (curl_proxy_flag proxy ++ rest)
      ≡ read plain none (ws ++ proxy_words proxy) rest
unfolding read curl_proxy_flag
curl_proxy_flag-read [] rest ws = rw (append-nil ws) refl
curl_proxy_flag-read (c ∷ cs) rest ws =
    rw
      (
        append_assoc (shell_quote (c ∷ cs)) (0x20 ∷ []) rest,
        read-shell_quote (c ∷ cs) (0x20 ∷ rest) none (ws ++ codes "--proxy" ∷ []),
        append_assoc ws (codes "--proxy" ∷ []) ((c ∷ cs) ∷ []),
      )
      refl

-- A request of the server: the flag installs or removes one module.
abbrev pub IsModuleFlag : Text → Type 0
IsModuleFlag f =
    ((name : Text) × (f ≡ codes "--install-module=" ++ name))
    ⊎ ((name : Text) × (f ≡ codes "--remove-module=" ++ name))

action_flag-IsModuleFlag : (action f : Text) → action_flag action ≡ some f → IsModuleFlag f
unfolding action_flag
action_flag-IsModuleFlag action f e = elim (Option-cases (strip (codes "install_") action)) [
  | inr (name, p) ↦ inl (name, ground (arith, p, e))
  | inl p ↦ elim (Option-cases (strip (codes "remove_") action)) [
    | inr (name, q) ↦ inr (name, ground (arith, p, q, e))
    | inl q ↦ ground (arith, p, q, e)
  ]
]

module_action_flags-IsModuleFlag :
    (actions : List Text) → All IsModuleFlag (module_action_flags actions)
unfolding module_action_flags action_flag
module_action_flags-IsModuleFlag [] = tt
module_action_flags-IsModuleFlag (a ∷ actions) = elim (Option-cases (action_flag a)) [
  | inl e ↦ rw e (module_action_flags-IsModuleFlag actions)
  | inr (f, e) ↦ rw e (action_flag-IsModuleFlag a f e, module_action_flags-IsModuleFlag actions)
]

-- Whatever the node's values and the server's actions hold, the shell reads the installer's arguments
-- as exactly those values, one word each, followed by flags that each install or remove one module,
-- and leaves the lines after them as they are; curl's option for the proxy adds exactly its words.
pub install_command-read :
    (a : Installer) (actions : List Text) (rest : Text) (before : List Text)
    → (read_line (install_arguments a (module_action_flags actions) ++ 0x0a ∷ rest)
        ≡ some (meant a (module_action_flags actions), rest))
      × All IsModuleFlag (module_action_flags actions)
      × (read plain none before (curl_proxy_flag a.proxy_url ++ rest)
          ≡ read plain none (before ++ proxy_words a.proxy_url) rest)
install_command-read a actions rest before = (
  install_arguments-read a (module_action_flags actions) rest,
  module_action_flags-IsModuleFlag actions,
  curl_proxy_flag-read a.proxy_url rest before,
)
