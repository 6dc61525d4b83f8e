-- ===== src/Netbind.antt =====
-- The binding of a node's connections, internal/netbind/binding.go: what it reads from the operator's
-- values, and how a subprocess receives it. Addresses and texts are Go's: what net/netip and strings
-- do with them is a record of functions. An entry `name=value` of an environment is a pair.
pub mod Inheritance
mod Tests
use Prim.Native.String.{◌++◌ as append}
use radar_node.Base.{
  ℕ, Bool, true, false, not, ◌&&◌, ◌||◌, String, Option, none, some, List, [], ◌∷◌, ◌++◌, ltb,
  str_eq, if◌then◌else◌, retain,
}

-- netip.Addr and strings.TrimSpace; `has_control` tells whether a rune is below 0x20 or 0x7f.
pub record Library (Addr : Type 0) : Type 0 where
  pub parse_addr : String → Option Addr
  pub print : Addr → String
  pub unmap : Addr → Addr
  pub is_unspecified : Addr → Bool
  pub is_multicast : Addr → Bool
  pub is4 : Addr → Bool
  pub is6 : Addr → Bool
  pub is_link_local_unicast : Addr → Bool
  pub zone : Addr → String
  pub with_zone : Addr → String → Addr
  pub trim_space : String → String
  pub byte_length : String → ℕ
  pub has_control : String → Bool

abbrev pub env_source_ip : String
env_source_ip = "RADAR_SOURCE_IP"

abbrev pub env_bind_interface : String
env_bind_interface = "RADAR_BIND_INTERFACE"

abbrev pub max_interface_len : ℕ
max_interface_len = 64

-- `source_ip` is none where the address is not valid, as in the zero Binding.
pub record Binding (Addr : Type 0) : Type 0 where
  pub source_ip : Option Addr
  pub interface : String

pub data ParseError : Type 0 where
  invalid_source not_unicast long_interface control_character : ParseError

pub data Checked (A : Type 0) : Type 0 where
  fine : A → Checked A
  refused : ParseError → Checked A

abbrev pub inherited : String × String → Bool
inherited e = not (str_eq e.0 env_source_ip || str_eq e.0 env_bind_interface)

abbrev pub interface_entry : String → List (String × String)
interface_entry name = if str_eq name "" then [] else (env_bind_interface, name) ∷ []

-- `os.Getenv`: empty where the name is not there.
abbrev pub getenv : String → List (String × String) → String
getenv name [] = ""
getenv name (e ∷ es) = if str_eq e.0 name then e.1 else getenv name es

module _ {Addr : Type 0} (lib : Library Addr) where
  unfoldable pub unicast : Addr → Checked (Option Addr)
  unicast a =
      if lib.is_unspecified a || lib.is_multicast a then refused not_unicast else fine (some a)

  unfoldable pub source_address : String → Checked (Option Addr)
  source_address raw = if str_eq raw "" then fine none else elim (lib.parse_addr raw) [
    | none ↦ refused invalid_source
    | some a ↦ unicast (lib.unmap a)
  ]

  unfoldable pub interface_name : String → Checked String
  interface_name name =
      if str_eq name ""
      then fine name
      else if ltb max_interface_len (lib.byte_length name)
      then refused long_interface
      else if lib.has_control name
      then refused control_character
      else fine name

  -- A link-local address without a zone takes the interface for it.
  unfoldable pub add_zone : String → Option Addr → Option Addr
  add_zone name none = none
  add_zone name (some a) =
      if lib.is6 a && lib.is_link_local_unicast a && str_eq (lib.zone a) "" && not (str_eq name "")
      then some (lib.with_zone a name)
      else some a

  abbrev pub with_interface : Option Addr → Checked String → Checked (Binding Addr)
  with_interface a (refused e) = refused e
  with_interface a (fine name) = fine (record { source_ip = add_zone name a; interface = name })

  abbrev pub with_source : Checked (Option Addr) → String → Checked (Binding Addr)
  with_source (refused e) iface = refused e
  with_source (fine a) iface = with_interface a (interface_name (lib.trim_space iface))

  -- `Parse`.
  unfoldable pub parse : String → String → Checked (Binding Addr)
  parse source_ip iface = with_source (source_address (lib.trim_space source_ip)) iface

  unfoldable pub is_zero : Binding Addr → Bool
  is_zero b = elim b.source_ip [ none ↦ str_eq b.interface "" | some _ ↦ false ]

  -- `Network`.
  unfoldable pub network : Binding Addr → String → String
  network b base = elim b.source_ip [
    | none ↦ base
    | some a ↦
        if str_eq base "tcp" || str_eq base "udp" || str_eq base "ip"
        then append base (if lib.is4 a then "4" else "6")
        else base
  ]

  abbrev pub source_entry : Option Addr → List (String × String)
  source_entry none = []
  source_entry (some a) = (env_source_ip, lib.print a) ∷ []

  -- `Env`.
  unfoldable pub env : List (String × String) → Binding Addr → List (String × String)
  env base b = retain inherited base ++ (source_entry b.source_ip ++ interface_entry b.interface)

  -- `FromEnv` of a process that was given an environment.
  unfoldable pub from_env : List (String × String) → Checked (Binding Addr)
  from_env es = parse (getenv env_source_ip es) (getenv env_bind_interface es)
