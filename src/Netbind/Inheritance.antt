-- ===== src/Netbind/Inheritance.antt =====
-- A subprocess that is given Env of internal/netbind/binding.go reads the same binding from it.
use radar_node.Base.{
  ◌≡◌, refl, ◌⊎◌, ap, ◌∙◌, subst, true, false, not, ◌&&◌, ◌||◌, String, Option, none, some, List,
  [], ◌∷◌, ◌++◌, ltb, str_eq, eq_iff, retain, arith, Bool-cases, Option-cases, inl, inr,
}
use radar_node.Netbind.{
  Library, Binding, Checked, ParseError, long_interface, control_character, fine, refused,
  env_source_ip, env_bind_interface, max_interface_len, unicast, source_address, interface_name,
  add_zone, with_interface, with_source, parse, inherited, source_entry, interface_entry, env,
  getenv, from_env,
}

-- What net/netip and strings document: printing an address and parsing the text gives the address,
-- and the text is not empty; trimming and unmapping twice is doing it once. The text of an address
-- that was read from a trimmed text, or that was given a trimmed zone, has no space at its ends (a
-- zone stands at the end of the text). An IPv6 address that is no IPv4 address in disguise stays
-- one under a zone, which is the one given, and a link-local one stays a unicast address.
pub record IsDocumented {Addr : Type 0} (lib : Library Addr) : Type 0 where
  pub trim_once : (s : String) → lib.trim_space (lib.trim_space s) ≡ lib.trim_space s
  pub trim_empty : lib.trim_space "" ≡ ""
  pub trim_read :
      (s : String) (a : Addr)
      → lib.trim_space s ≡ s
      → lib.parse_addr s ≡ some a
      → lib.trim_space (lib.print (lib.unmap a)) ≡ lib.print (lib.unmap a)
  pub trim_zoned :
      (a : Addr) (z : String)
      → lib.is6 a ≡ true
      → lib.trim_space z ≡ z
      → lib.trim_space (lib.print (lib.with_zone a z)) ≡ lib.print (lib.with_zone a z)
  pub print_nonempty : (a : Addr) → str_eq (lib.print a) "" ≡ false
  pub parse_print : (a : Addr) → lib.parse_addr (lib.print a) ≡ some a
  pub unmap_once : (a : Addr) → lib.unmap (lib.unmap a) ≡ lib.unmap a
  pub zone_given : (a : Addr) (z : String) → lib.is6 a ≡ true → lib.zone (lib.with_zone a z) ≡ z
  pub zone_unmapped :
      (a : Addr) (z : String)
      → lib.is6 a ≡ true
      → lib.unmap a ≡ a
      → lib.unmap (lib.with_zone a z) ≡ lib.with_zone a z
  pub zone_unicast :
      (a : Addr) (z : String)
      → lib.is6 a ≡ true
      → lib.unmap a ≡ a
      → lib.is_link_local_unicast a ≡ true
      → (lib.is_unspecified (lib.with_zone a z) || lib.is_multicast (lib.with_zone a z)) ≡ false

getenv-retain :
    (name : String) (base rest : List (String × String))
    → (str_eq name env_source_ip || str_eq name env_bind_interface) ≡ true
    → getenv name (retain inherited base ++ rest) ≡ getenv name rest
getenv-retain name [] rest h = refl
getenv-retain name (e ∷ es) rest h = ground (
  arith,
  h,
  getenv-retain name es rest h,
  eq_iff e.0 name,
  eq_iff name env_source_ip,
  eq_iff name env_bind_interface,
  eq_iff e.0 env_source_ip,
  eq_iff e.0 env_bind_interface,
)

module _ {Addr : Type 0} (lib : Library Addr) (law : IsDocumented lib) where
  -- What an address and an interface satisfy that Parse gave.
  abbrev IsSource : String → Option Addr → Type 0
  IsSource name none = Unit {0}
  IsSource name (some a) =
      (lib.unmap a ≡ a)
      × ((lib.is_unspecified a || lib.is_multicast a) ≡ false)
      × (add_zone lib name (some a) ≡ some a)
      × (lib.trim_space (lib.print a) ≡ lib.print a)

  abbrev IsInterface : String → Type 0
  IsInterface name = (lib.trim_space name ≡ name) × (interface_name lib name ≡ fine name)

  abbrev IsUnicast : Checked (Option Addr) → Type 0
  IsUnicast (refused e) = Unit {0}
  IsUnicast (fine none) = Unit {0}
  IsUnicast (fine (some a)) =
      (lib.unmap a ≡ a)
      × ((lib.is_unspecified a || lib.is_multicast a) ≡ false)
      × (lib.trim_space (lib.print a) ≡ lib.print a)

  abbrev IsGood : Checked (Binding Addr) → Type 0
  IsGood (refused e) = Unit {0}
  IsGood (fine b) = IsSource b.interface b.source_ip × IsInterface b.interface

  unicast-IsUnicast :
      (a : Addr)
      → lib.unmap a ≡ a
      → lib.trim_space (lib.print a) ≡ lib.print a
      → IsUnicast (unicast lib a)
  unfolding unicast
  unicast-IsUnicast a h trimmed = elim (Bool-cases (lib.is_unspecified a || lib.is_multicast a)) [
    | inl bad ↦ rw (bad, unicast) tt
    | inr good ↦ rw (good, unicast) (h, good, trimmed)
  ]

  source_address-IsUnicast :
      (raw : String) → lib.trim_space raw ≡ raw → IsUnicast (source_address lib raw)
  unfolding source_address
  source_address-IsUnicast raw trimmed = elim (Bool-cases (str_eq raw "")) [
    | inl empty ↦ rw (empty, source_address) tt
    | inr some_text ↦ elim (Option-cases (lib.parse_addr raw)) [
      | inl e ↦ rw (some_text, source_address) (rw e tt)
      | inr (a, e) ↦
          rw (some_text, source_address)
            (rw e
              (unicast-IsUnicast (lib.unmap a) (law.unmap_once a) (law.trim_read raw a trimmed e)))
    ]
  ]

  add_zone-IsSource :
      (name : String) (a : Addr)
      → lib.trim_space name ≡ name
      → IsUnicast (fine (some a))
      → IsSource name (add_zone lib name (some a))
  unfolding add_zone
  add_zone-IsSource name a trimmed_name (unmapped, unicast_a, trimmed) =
      elim (Bool-cases (
        lib.is6 a
        && lib.is_link_local_unicast a
        && str_eq (lib.zone a) ""
        && not (str_eq name ""))) [
          | inr other ↦
              rw (other, add_zone) (unmapped, unicast_a, rw (other, add_zone) refl, trimmed)
          | inl zoned ↦
              let is_six : lib.is6 a ≡ true = ground (arith, zoned) in
              let local : lib.is_link_local_unicast a ≡ true = ground (arith, zoned) in
              let named : str_eq name "" ≡ false = ground (arith, zoned) in
              let kept : str_eq (lib.zone (lib.with_zone a name)) "" ≡ false =
                ap (λ z. str_eq z "") (law.zone_given a name is_six) ∙ named in
              rw (zoned, add_zone)
                (
                  law.zone_unmapped a name is_six unmapped,
                  law.zone_unicast a name is_six unmapped local,
                  ground (arith, kept),
                  law.trim_zoned a name is_six trimmed_name,
                )
        ]

  interface_name-same :
      (name : String)
      → (interface_name lib name ≡ fine name)
        ⊎ ((e : ParseError) × (interface_name lib name ≡ refused e))
  unfolding interface_name
  interface_name-same name = elim (Bool-cases (str_eq name "")) [
    | inl empty ↦ inl (rw (empty, interface_name) refl)
    | inr named ↦ elim (Bool-cases (ltb max_interface_len (lib.byte_length name))) [
      | inl long ↦ inr (long_interface, rw (named, interface_name) (rw long refl))
      | inr short ↦ elim (Bool-cases (lib.has_control name)) [
        | inl control ↦
            inr (control_character, rw (named, interface_name) (rw short (rw control refl)))
        | inr plain ↦ inl (rw (named, interface_name) (rw short (rw plain refl)))
      ]
    ]
  ]

  with_interface-IsGood :
      (a : Option Addr) (iface : String)
      → IsUnicast (fine a)
      → IsGood (with_interface lib a (interface_name lib (lib.trim_space iface)))
  unfolding add_zone
  with_interface-IsGood a iface good = elim (interface_name-same (lib.trim_space iface)) [
    | inr (e, bad) ↦ rw bad tt
    | inl named ↦ rw named (zoned a good, (law.trim_once iface, named))
  ]
    where
      zoned :
          (o : Option Addr)
          → IsUnicast (fine o)
          → IsSource (lib.trim_space iface) (add_zone lib (lib.trim_space iface) o)
      zoned none h = tt
      zoned (some x) h = add_zone-IsSource (lib.trim_space iface) x (law.trim_once iface) h

  with_source-IsGood :
      (o : Checked (Option Addr)) (iface : String) → IsUnicast o → IsGood (with_source lib o iface)
  with_source-IsGood (refused e) iface h = tt
  with_source-IsGood (fine a) iface h = with_interface-IsGood a iface h

  abbrev printed : Option Addr → String
  printed none = ""
  printed (some a) = lib.print a

  getenv-source_entry :
      (o : Option Addr) (name : String)
      → getenv env_source_ip (source_entry lib o ++ interface_entry name) ≡ printed o
  getenv-source_entry none name = ground arith
  getenv-source_entry (some a) name = refl

  getenv-interface_entry :
      (o : Option Addr) (name : String)
      → getenv env_bind_interface (source_entry lib o ++ interface_entry name) ≡ name
  getenv-interface_entry none name = ground (arith, eq_iff name "")
  getenv-interface_entry (some a) name = ground (arith, eq_iff name "")

  from_env-env :
      (base : List (String × String)) (b : Binding Addr)
      → from_env lib (env lib base b) ≡ parse lib (printed b.source_ip) b.interface
  unfolding from_env env
  from_env-env base b =
      ap (λ s. parse lib s (getenv env_bind_interface (env lib base b)))
        (getenv-retain env_source_ip base _ refl ∙ getenv-source_entry b.source_ip b.interface)
      ∙ ap (parse lib (printed b.source_ip)) (
          getenv-retain env_bind_interface base _ refl
          ∙ getenv-interface_entry b.source_ip b.interface)

  reread :
      (o : Option Addr) (name : String)
      → IsSource name o
      → IsInterface name
      → parse lib (printed o) name ≡ fine (record { source_ip = o; interface = name })
  unfolding parse source_address unicast add_zone
  reread none name h (trimmed, named) = rw law.trim_empty (rw trimmed (rw named refl))
  reread (some a) name (unmapped, unicast_a, zoned, printed_trimmed) (trimmed, named) =
      rw printed_trimmed (
        rw (law.print_nonempty a) (
          rw (law.parse_print a) (
            rw unmapped (
              rw unicast_a (
                rw trimmed (
                  rw named (
                    ap (λ (o : Option Addr). fine (record { source_ip = o; interface = name }))
                      zoned)))))))

  -- A binding that Parse accepts is the one that a subprocess reads from the environment that Env makes
  -- for it, whatever was bound in the environment before, the zero binding included.
  pub env-from_env :
      (source_ip iface : String) (base : List (String × String)) (b : Binding Addr)
      → parse lib source_ip iface ≡ fine b
      → from_env lib (env lib base b) ≡ fine b
  unfolding parse
  env-from_env source_ip iface base b accepted =
      let good = subst IsGood (accepted) (
        with_source-IsGood (source_address lib (lib.trim_space source_ip)) iface
          (source_address-IsUnicast (lib.trim_space source_ip) (law.trim_once source_ip))) in
      from_env-env base b ∙ reread b.source_ip b.interface good.0 good.1
