-- ===== src/PoolConfig.antt =====
-- The configuration that one engine gets for a batch of jobs, internal/poolconfig/poolconfig.go:
-- buildConfig with remapInbound, applyDomainStrategy and applyBinding. `integral` reads a JSON number
-- that is an integer; an outbound is none where the JSON has null, a nil map in Go, on which writing
-- a key panics: then there is no configuration. The messages are JSON objects; reading and writing
-- the files is not modelled.
pub mod Decimal
pub mod Tags
pub mod Routes
mod Tests
use mathlib.Core.Option
use radar_node.Base.{
  ℕ, zero, suc, Bool, true, false, not, ◌&&◌, ◌||◌, String, Option, none, some, List, [], ◌∷◌, ◌++◌,
  ◌==◌, str_eq, if◌then◌else◌, ℤ, at_most,
}
use radar_node.Wire.{
  Value, flag, literal, text, object, Members, closed, member, get_member, put_member, members_of,
}
use radar_node.Netbind.{Library, Binding, is_zero}
use radar_node.PoolConfig.Decimal.{in_tag, out_tag}

abbrev pub same_int : ℤ → ℤ → Bool
same_int a b = at_most a b && at_most b a

-- A job of the batch; `alloc_port` is the text of its port.
pub record Job : Type 0 where
  pub index : ℕ
  pub alloc_port : String
  pub inbounds : List Members
  pub outbounds : List (Option Members)
  pub socks_port : Option Value

pub record Rule : Type 0 where
  pub inbound_tag : String
  pub outbound_tag : String

pub record MergedConfig : Type 0 where
  pub inbounds : List Members
  pub outbounds : List Members
  pub rules : List Rule

-- `v.(string)`, with the empty text for another value.
abbrev pub text_or_empty : Option Value → String
text_or_empty (some (text s)) = s
text_or_empty _ = ""

-- `sockopt[key] = v` in the stream settings of an outbound, which are made where they are missing.
abbrev pub put_sockopt : String → Value → Members → Members
put_sockopt key v outbound =
    let stream = members_of (get_member "streamSettings" outbound) in
    let sockopt = members_of (get_member "sockopt" stream) in
    put_member "streamSettings"
      (object (put_member "sockopt" (object (put_member key v sockopt)) stream)) outbound

-- `applyDomainStrategy`.
unfoldable pub apply_domain_strategy : String → Members → Members
apply_domain_strategy strategy outbound =
    if str_eq strategy "" then outbound else put_sockopt "domainStrategy" (text strategy) outbound

module _ {Addr : Type 0} (lib : Library Addr) where
  abbrev pub send_through : Option Addr → Members → Members
  send_through none outbound = outbound
  send_through (some a) outbound =
      if lib.is_link_local_unicast a
      then outbound
      else put_member "sendThrough" (text (lib.print (lib.with_zone a ""))) outbound

  -- `applyBinding`.
  unfoldable pub apply_binding : Binding Addr → Members → Members
  apply_binding b outbound =
      let sent = send_through b.source_ip outbound in
      if is_zero lib b
      then outbound
      else if str_eq b.interface ""
      then sent
      else put_sockopt "interface" (text b.interface) sent

abbrev pub mux : Value
mux = object (member "enabled" (flag true) (member "concurrency" (literal "8") closed))

-- Mux for the primary outbound, unless its transport or its security forbids it.
unfoldable pub add_mux : Members → Members
add_mux outbound =
    let stream = members_of (get_member "streamSettings" outbound) in
    if str_eq (text_or_empty (get_member "network" stream)) "xhttp"
      || str_eq (text_or_empty (get_member "security" stream)) "reality"
    then outbound
    else put_member "mux" mux outbound

module _ (integral : String → Option ℤ) where
  -- `asInt` of a decoded value.
  unfoldable pub as_int : Option Value → Option ℤ
  as_int (some (literal n)) = integral n
  as_int _ = none

  abbrev pub has_port : ℤ → Option ℤ → Bool
  has_port declared none = false
  has_port declared (some port) = same_int port declared

  -- `remapInbound`.
  unfoldable pub remap_inbound : ℤ → String → List Members → Option Members
  remap_inbound declared alloc [] = none
  remap_inbound declared alloc (raw ∷ raws) =
      let rest = remap_inbound declared alloc raws in
      if has_port declared (as_int (get_member "port" raw))
      then some (put_member "port" (literal alloc) raw)
      else if has_port declared (as_int (get_member "listen_port" raw))
      then some (put_member "listen_port" (literal alloc) raw)
      else rest

  module _ {Addr : Type 0} (lib : Library Addr) (strategy : String) (binding : Binding Addr) where
    -- The outbound of a place in its job; the one of place 0 is the primary one.
    unfoldable pub prepare : ℕ → ℕ → Members → Members
    prepare index i outbound =
        let tagged = put_member "tag" (text (out_tag index i)) outbound in
        let bound = apply_binding lib binding (apply_domain_strategy strategy tagged) in
        if i == 0 then add_mux bound else bound

    unfoldable pub prepare_from : ℕ → ℕ → List (Option Members) → Option (List Members)
    prepare_from index i [] = some []
    prepare_from index i (none ∷ os) = none
    prepare_from index i (some o ∷ os) =
        Option.map (λ rest. prepare index i o ∷ rest) (prepare_from index (suc i) os)

    -- What a job with outbounds adds, once its inbound is found.
    abbrev pub with_inbound : Job → Option Members → MergedConfig → Option MergedConfig
    with_inbound j none merged = some merged
    with_inbound j (some inbound) merged =
        Option.map
          (λ outs. record {
            inbounds = merged.inbounds ++ put_member "tag" (text (in_tag j.index)) inbound ∷ [];
            outbounds = merged.outbounds ++ outs;
            rules =
                merged.rules
                ++ record { inbound_tag = in_tag j.index; outbound_tag = out_tag j.index 0 } ∷ [];
          })
          (prepare_from j.index 0 j.outbounds)

    -- The inbound of a job that is not left out, on its port.
    abbrev pub inbound_with : Job → Option ℤ → List (Option Members) → Option Members
    inbound_with j none outs = none
    inbound_with j (some declared) [] = none
    inbound_with j (some declared) (o ∷ os) = remap_inbound declared j.alloc_port j.inbounds

    unfoldable pub inbound_of : Job → Option Members
    inbound_of j = inbound_with j (as_int j.socks_port) j.outbounds

    unfoldable pub build_from : MergedConfig → List Job → Option MergedConfig
    build_from merged [] = some merged
    build_from merged (j ∷ js) = elim (with_inbound j (inbound_of j) merged) [
      | none ↦ none
      | some next ↦ build_from next js
    ]

    -- `buildConfig`, none where it panics.
    unfoldable pub build_config : List Job → Option MergedConfig
    build_config js = build_from (record { inbounds = []; outbounds = []; rules = [] }) js
