-- ===== src/PoolConfig/Routes/Paths.antt =====
-- Where the engine that PoolConfig builds listens, and where it sends what comes in (internal/poolconfig).
use mathlib.Core.Option.{some-injective}
use radar_node.Base.{
  ◌≡◌, subst, ◌⊎◌, inl, inr, arith, Bool, Bool-cases, String, Option, none, some, List, [], ◌∷◌,
  str_eq, ℤ,
}
use radar_node.Wire.{literal, Members, get_member, put_member}
use radar_node.PoolConfig.Tags.{first, get_member_self}
use radar_node.PoolConfig.{Rule, MergedConfig, text_or_empty, as_int, has_port, remap_inbound}

abbrev pub is_tagged : String → Members → Bool
is_tagged tag ms = str_eq (text_or_empty (get_member "tag" ms)) tag

abbrev pub is_rule_of : String → Rule → Bool
is_rule_of tag r = str_eq r.inbound_tag tag

-- The outbound to which the engine sends what comes in at a tag: the one that the first rule for the
-- tag names.
abbrev pub route : MergedConfig → String → Option Members
route c tag = elim (first (is_rule_of tag) c.rules) [
  | none ↦ none
  | some r ↦ first (is_tagged r.outbound_tag) c.outbounds
]

-- The inbound listens on a port.
abbrev pub Listens : String → Members → Type 0
Listens alloc ms =
    (get_member "port" ms ≡ some (literal alloc))
    ⊎ (get_member "listen_port" ms ≡ some (literal alloc))

module _ (integral : String → Option ℤ) where
  pub remap_inbound-Listens :
      (declared : ℤ) (alloc : String) (raws : List Members) (r : Members)
      → remap_inbound integral declared alloc raws ≡ some r
      → Listens alloc r
  unfolding remap_inbound
  remap_inbound-Listens declared alloc [] r h = absurd (ground (arith, h))
  remap_inbound-Listens declared alloc (raw ∷ raws) r h =
      elim (Bool-cases (has_port integral declared (as_int integral (get_member "port" raw)))) [
        | inl e ↦
            let eq : some (put_member "port" (literal alloc) raw) ≡ some r = ground (arith, h, e) in
            subst (Listens alloc) (some-injective _ _ eq)
              (inl (get_member_self "port" (literal alloc) raw))
        | inr e ↦
            elim (Bool-cases
              (has_port integral declared (as_int integral (get_member "listen_port" raw)))) [
                | inl d ↦
                    let eq : some (put_member "listen_port" (literal alloc) raw) ≡ some r =
                      ground (arith, h, e, d) in
                    subst (Listens alloc) (some-injective _ _ eq)
                      (inr (get_member_self "listen_port" (literal alloc) raw))
                | inr d ↦ remap_inbound-Listens declared alloc raws r (ground (arith, h, e, d))
              ]
      ]
