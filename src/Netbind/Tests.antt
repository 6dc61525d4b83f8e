-- ===== src/Netbind/Tests.antt =====
-- Bindings of a library that knows two IPv4 addresses and a link-local IPv6 address, with any zone,
-- and the theorem at one.
use Prim.Native.Char.{code}
use radar_node.Base.{
  ◌≡◌, refl, Bool, true, false, String, Option, none, some, [], ◌∷◌, str_eq, eq_iff, ◌==◌, ap,
  Bool-cases, inl, inr, if◌then◌else◌, arith,
}
use radar_node.Netbind.{
  Library, Binding, fine, refused, not_unicast, parse, env, from_env, unicast, source_address,
  interface_name, add_zone,
}
use radar_node.Netbind.Inheritance.{IsDocumented, env-from_env}

data Address : Type 0 where
  private unspecified : Address
  link_local : String → Address

-- The zone stands behind a sign and at the end.
abbrev with_suffix : String → String
with_suffix zone = String.◌∷◌ "f" (String.◌∷◌ "e" (String.◌∷◌ "%" zone))

abbrev printed : Address → String
printed private = "192.0.2.7"
printed unspecified = "0.0.0.0"
printed (link_local zone) = with_suffix zone

abbrev read_v6 : String → Option Address
read_v6 (String.◌∷◌ a (String.◌∷◌ b zone)) = some (link_local zone)
read_v6 _ = none

abbrev read_address : String → Option Address
read_address String.[] = none
read_address (String.◌∷◌ c s) =
    if code c == b'1' then some private else if code c == b'0' then some unspecified else read_v6 s

abbrev is_zero_address : Address → Bool
is_zero_address unspecified = true
is_zero_address _ = false

abbrev is_v6 : Address → Bool
is_v6 (link_local zone) = true
is_v6 _ = false

abbrev zone_of : Address → String
zone_of (link_local zone) = zone
zone_of _ = ""

abbrev zoned : Address → String → Address
zoned (link_local zone) z = link_local z
zoned a z = a

abbrev is_v4 : Address → Bool
is_v4 (link_local zone) = false
is_v4 _ = true

abbrev library : Library Address
library = record {
  parse_addr = read_address;
  print = printed;
  unmap = λ a. a;
  is_unspecified = is_zero_address;
  is_multicast = λ a. false;
  is4 = is_v4;
  is6 = is_v6;
  is_link_local_unicast = is_v6;
  zone = zone_of;
  with_zone = zoned;
  trim_space = λ s. s;
  byte_length = λ s. 5;
  has_control = λ s. false;
}

abbrev is_empty : String → Bool
is_empty String.[] = true
is_empty (String.◌∷◌ c s) = false

nonempty : (a : Address) → str_eq (printed a) "" ≡ false
nonempty private = refl
nonempty unspecified = refl
nonempty (link_local zone) = elim (Bool-cases (str_eq (with_suffix zone) "")) [
  | inl e ↦ cc (ap is_empty ((eq_iff (with_suffix zone) "").0 e))
  | inr e ↦ e
]

reads : (a : Address) → read_address (printed a) ≡ some a
reads private = refl
reads unspecified = refl
reads (link_local zone) = refl

zone_is_given : (a : Address) (z : String) → is_v6 a ≡ true → zone_of (zoned a z) ≡ z
zone_is_given private z six = cc
zone_is_given unspecified z six = cc
zone_is_given (link_local zone) z six = refl

stays_unicast : (a : Address) (z : String) → is_v6 a ≡ true → is_zero_address (zoned a z) ≡ false
stays_unicast private z six = refl
stays_unicast unspecified z six = cc
stays_unicast (link_local zone) z six = refl

library-IsDocumented : IsDocumented library
library-IsDocumented = record {
  trim_once = λ s. refl;
  trim_empty = refl;
  trim_read = λ s a trimmed e. refl;
  trim_zoned = λ a z six trimmed. refl;
  print_nonempty = nonempty;
  parse_print = reads;
  unmap_once = λ a. refl;
  zone_given = zone_is_given;
  zone_unmapped = λ a z six unmapped. refl;
  zone_unicast = λ a z six unmapped local. ground (arith, stays_unicast a z six);
}

-- The link-local address takes the interface for its zone.
abbrev bound : Binding Address
bound = record { source_ip = some (link_local "wwan0"); interface = "wwan0" }

accepted : parse library "fe%" "wwan0" ≡ fine bound
unfolding parse source_address unicast interface_name add_zone
accepted = refl

unbindable : parse library "0.0.0.0" "wwan0" ≡ refused not_unicast
unfolding parse source_address unicast
unbindable = refl

-- A subprocess of a node that was bound to another interface.
env-from_env_example :
    from_env library (env library (("RADAR_BIND_INTERFACE", "eth1") ∷ ("PATH", "/bin") ∷ []) bound)
    ≡ fine bound
env-from_env_example =
    env-from_env library library-IsDocumented "fe%" "wwan0"
      (("RADAR_BIND_INTERFACE", "eth1") ∷ ("PATH", "/bin") ∷ []) bound accepted
