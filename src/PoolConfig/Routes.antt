-- ===== src/PoolConfig/Routes.antt =====
-- Jobs that share an engine do not share a path through it.
pub mod Paths
use mathlib.Core.Option
use radar_node.Base.{
  ℕ, suc, ◌≡◌, refl, sym, ap, subst, ◌∙◌, ◌⊎◌, inl, inr, arith, Bool, false, Bool-cases, String,
  Option, none, some, List, [], ◌∷◌, ◌++◌, ◌==◌, str_eq, eq_iff, eq_refl, ℤ, All, if_both,
}
use radar_node.Wire.{literal, text, Members, get_member, put_member, get_member-put_member}
use radar_node.Netbind.{Library, Binding}
use radar_node.PoolConfig.Tags.{
  tag_of, apply_domain_strategy-tag, add_mux-tag, apply_binding-tag, first, first-append-none,
  first-append-some, get_member_self,
}
use radar_node.PoolConfig.Decimal.{in_tag, out_tag, in_tag-injective, out_tag-injective}
use radar_node.PoolConfig.{
  Job, Rule, MergedConfig, text_or_empty, apply_domain_strategy, apply_binding, as_int, has_port,
  remap_inbound, prepare, prepare_from, with_inbound, inbound_with, inbound_of, build_from,
  build_config,
}
use radar_node.PoolConfig.Routes.Paths.{
  is_tagged, is_rule_of, route, Listens, remap_inbound-Listens,
}

-- An outbound that is not a JSON null.
abbrev pub IsObject : Option Members → Type 0
IsObject none = ⊥
IsObject (some o) = Unit {0}

module _ (integral : String → Option ℤ) where
  module _ {Addr : Type 0} (lib : Library Addr) (strategy : String) (binding : Binding Addr) where
    abbrev prepared : ℕ → ℕ → Members → Members
    prepared = prepare integral lib strategy binding

    abbrev inbound_for : Job → Option Members
    inbound_for = inbound_of integral lib strategy binding

    -- What the configuration is where no outbound is null.
    abbrev prepared_from : ℕ → ℕ → List (Option Members) → List Members
    prepared_from index i [] = []
    prepared_from index i (none ∷ os) = prepared_from index (suc i) os
    prepared_from index i (some o ∷ os) = prepared index i o ∷ prepared_from index (suc i) os

    abbrev adds : Job → Option Members → MergedConfig → MergedConfig
    adds j none merged = merged
    adds j (some inbound) merged = record {
      inbounds = merged.inbounds ++ put_member "tag" (text (in_tag j.index)) inbound ∷ [];
      outbounds = merged.outbounds ++ prepared_from j.index 0 j.outbounds;
      rules =
          merged.rules
          ++ record { inbound_tag = in_tag j.index; outbound_tag = out_tag j.index 0 } ∷ [];
    }

    abbrev builds : MergedConfig → List Job → MergedConfig
    builds c [] = c
    builds c (j ∷ js) = builds (adds j (inbound_for j) c) js

    prepare_from-objects :
        (index i : ℕ) (os : List (Option Members))
        → All IsObject os
        → prepare_from integral lib strategy binding index i os ≡ some (prepared_from index i os)
    unfolding prepare_from
    prepare_from-objects index i [] h = refl
    prepare_from-objects index i (none ∷ os) (h, hs) = absurd h
    prepare_from-objects index i (some o ∷ os) (h, hs) =
        ap (Option.map (λ rest. prepared index i o ∷ rest))
          (prepare_from-objects index (suc i) os hs)

    with_inbound-objects :
        (j : Job) (r : Option Members) (c : MergedConfig)
        → All IsObject j.outbounds
        → with_inbound integral lib strategy binding j r c ≡ some (adds j r c)
    with_inbound-objects j none c h = refl
    with_inbound-objects j (some inbound) c h =
        rw (prepare_from-objects j.index 0 j.outbounds h) refl

    build_from-objects :
        (js : List Job) (c : MergedConfig)
        → All (λ j. All IsObject j.outbounds) js
        → build_from integral lib strategy binding c js ≡ some (builds c js)
    unfolding build_from
    build_from-objects [] c h = refl
    build_from-objects (j ∷ js) c (h, hs) =
        rw (with_inbound-objects j (inbound_for j) c h, build_from)
          (build_from-objects js (adds j (inbound_for j) c) hs)

    prepare-tag :
        (index i : ℕ) (o : Members) → tag_of (prepared index i o) ≡ some (text (out_tag index i))
    unfolding prepare
    prepare-tag index i o =
        let tagged = put_member "tag" (text (out_tag index i)) o in
        let chosen = apply_domain_strategy strategy tagged in
        let kept =
          apply_binding-tag lib binding chosen
          ∙ apply_domain_strategy-tag strategy tagged
          ∙ get_member_self "tag" (text (out_tag index i)) o in
        if_both (λ (x : Members). tag_of x ≡ some (text (out_tag index i))) _
          (add_mux-tag (apply_binding lib binding chosen) ∙ kept) kept

    other_in : (i j : ℕ) → (i == j) ≡ false → str_eq (in_tag i) (in_tag j) ≡ false
    other_in i j h = elim (Bool-cases (str_eq (in_tag i) (in_tag j))) [
      | inl e ↦
          let same = in_tag-injective i j ((eq_iff (in_tag i) (in_tag j)).0 e) in
          absurd (ground (arith, h, same))
      | inr e ↦ e
    ]

    other_out : (i k j l : ℕ) → (i == j) ≡ false → str_eq (out_tag i k) (out_tag j l) ≡ false
    other_out i k j l h = elim (Bool-cases (str_eq (out_tag i k) (out_tag j l))) [
      | inl e ↦
          let same = (out_tag-injective i k j l ((eq_iff (out_tag i k) (out_tag j l)).0 e)).0 in
          absurd (ground (arith, h, same))
      | inr e ↦ e
    ]

    prepared_from-other :
        (i j k : ℕ) (os : List (Option Members))
        → (i == j) ≡ false
        → first (is_tagged (out_tag j 0)) (prepared_from i k os) ≡ none
    prepared_from-other i j k [] h = refl
    prepared_from-other i j k (none ∷ os) h = prepared_from-other i j (suc k) os h
    prepared_from-other i j k (some o ∷ os) h =
        rw (prepare-tag i k o, other_out i k j 0 h) (prepared_from-other i j (suc k) os h)

    -- Nothing of a configuration bears the tags of a job.
    record Lacks (j : ℕ) (c : MergedConfig) : Type 0 where
      no_inbound : first (is_tagged (in_tag j)) c.inbounds ≡ none
      no_rule : first (is_rule_of (in_tag j)) c.rules ≡ none
      no_outbound : first (is_tagged (out_tag j 0)) c.outbounds ≡ none

    adds-Lacks :
        (i : Job) (j : ℕ) (r : Option Members) (c : MergedConfig)
        → (i.index == j) ≡ false
        → Lacks j c
        → Lacks j (adds i r c)
    adds-Lacks i j none c h lacks = lacks
    adds-Lacks i j (some inbound) c h lacks = record {
      no_inbound =
          first-append-none (is_tagged (in_tag j)) c.inbounds _ lacks.no_inbound
          ∙ rw (get_member_self "tag" (text (in_tag i.index)) inbound, other_in i.index j h) refl;
      no_rule =
          first-append-none (is_rule_of (in_tag j)) c.rules _ lacks.no_rule
          ∙ rw (other_in i.index j h) refl;
      no_outbound =
          first-append-none (is_tagged (out_tag j 0)) c.outbounds _ lacks.no_outbound
          ∙ prepared_from-other i.index j 0 i.outbounds h;
    }

    builds-Lacks :
        (j : ℕ) (js : List Job) (c : MergedConfig)
        → All (λ i. (i.index == j) ≡ false) js
        → Lacks j c
        → Lacks j (builds c js)
    builds-Lacks j [] c h lacks = lacks
    builds-Lacks j (i ∷ js) c h lacks =
        builds-Lacks j js (adds i (inbound_for i) c) h.1
          (adds-Lacks i j (inbound_for i) c h.0 lacks)

    -- A job's inbound, its rule and its primary outbound are the first with their tags.
    record Has (j : ℕ) (inbound outbound : Members) (c : MergedConfig) : Type 0 where
      an_inbound : first (is_tagged (in_tag j)) c.inbounds ≡ some inbound
      a_rule :
          first (is_rule_of (in_tag j)) c.rules
          ≡ some (record { inbound_tag = in_tag j; outbound_tag = out_tag j 0 })
      an_outbound : first (is_tagged (out_tag j 0)) c.outbounds ≡ some outbound

    adds-Has_more :
        (i : Job) (j : ℕ) (r : Option Members) (inbound outbound : Members) (c : MergedConfig)
        → Has j inbound outbound c
        → Has j inbound outbound (adds i r c)
    adds-Has_more i j none inbound outbound c has = has
    adds-Has_more i j (some other) inbound outbound c has = record {
      an_inbound = first-append-some (is_tagged (in_tag j)) c.inbounds _ _ has.an_inbound;
      a_rule = first-append-some (is_rule_of (in_tag j)) c.rules _ _ has.a_rule;
      an_outbound = first-append-some (is_tagged (out_tag j 0)) c.outbounds _ _ has.an_outbound;
    }

    builds-Has :
        (j : ℕ) (inbound outbound : Members) (js : List Job) (c : MergedConfig)
        → Has j inbound outbound c
        → Has j inbound outbound (builds c js)
    builds-Has j inbound outbound [] c has = has
    builds-Has j inbound outbound (i ∷ js) c has =
        builds-Has j inbound outbound js (adds i (inbound_for i) c)
          (adds-Has_more i j (inbound_for i) inbound outbound c has)

    adds-Has :
        (j : Job) (r o : Members) (os : List (Option Members)) (c : MergedConfig)
        → j.outbounds ≡ some o ∷ os
        → Lacks j.index c
        → Has j.index
            (put_member "tag" (text (in_tag j.index)) r)
            (prepared j.index 0 o)
            (adds j (some r) c)
    adds-Has j r o os c outs lacks = record {
      an_inbound =
          first-append-none (is_tagged (in_tag j.index)) c.inbounds _ lacks.no_inbound
          ∙ rw (get_member_self "tag" (text (in_tag j.index)) r, eq_refl (in_tag j.index)) refl;
      a_rule =
          first-append-none (is_rule_of (in_tag j.index)) c.rules _ lacks.no_rule
          ∙ rw (eq_refl (in_tag j.index)) refl;
      an_outbound =
          first-append-none (is_tagged (out_tag j.index 0)) c.outbounds _ lacks.no_outbound
          ∙ ap (λ l. first (is_tagged (out_tag j.index 0)) (prepared_from j.index 0 l)) outs
          ∙ rw (prepare-tag j.index 0 o, eq_refl (out_tag j.index 0)) refl;
    }

    inbound_with-Listens :
        (j : Job) (declared : Option ℤ) (outs : List (Option Members)) (r : Members)
        → inbound_with integral lib strategy binding j declared outs ≡ some r
        → Listens j.alloc_port r
    inbound_with-Listens j none outs r h = absurd (ground (arith, h))
    inbound_with-Listens j (some d) [] r h = absurd (ground (arith, h))
    inbound_with-Listens j (some d) (o ∷ os) r h =
        remap_inbound-Listens integral d j.alloc_port j.inbounds r h

    tagged-Listens :
        (alloc tag : String) (r : Members)
        → Listens alloc r
        → Listens alloc (put_member "tag" (text tag) r)
    tagged-Listens alloc tag r (inl e) =
        inl (rw (get_member-put_member "tag" "port" (text tag) r) e)
    tagged-Listens alloc tag r (inr e) =
        inr (rw (get_member-put_member "tag" "listen_port" (text tag) r) e)

    Has-route :
        (j : ℕ) (inbound outbound : Members) (c : MergedConfig)
        → Has j inbound outbound c
        → route c (in_tag j) ≡ some outbound
    Has-route j inbound outbound c has = rw (has.a_rule, route) has.an_outbound

    build_from-append :
        (xs ys : List Job) (c : MergedConfig) → builds c (xs ++ ys) ≡ builds (builds c xs) ys
    build_from-append [] ys c = refl
    build_from-append (x ∷ xs) ys c = build_from-append xs ys (adds x (inbound_for x) c)

    nothing : MergedConfig
    nothing = record { inbounds = []; outbounds = []; rules = [] }

    -- In the configuration of a batch, a job that is not left out, and whose number no job before it
    -- has, keeps a path of its own: the first inbound with its tag listens on the port that was
    -- allocated for it, and the engine sends what comes in there to the job's own first outbound,
    -- with the node's domain strategy and binding, whatever the other jobs are, as long as no
    -- outbound in the batch is a JSON null; then there is a configuration.
    pub build_config-routes :
        (before after : List Job) (j : Job) (r o : Members) (os : List (Option Members))
        → All (λ i. All IsObject i.outbounds) (before ++ j ∷ after)
        → All (λ i. (i.index == j.index) ≡ false) before
        → inbound_for j ≡ some r
        → j.outbounds ≡ some o ∷ os
        → (c : MergedConfig) × (build_config integral lib strategy binding (before ++ j ∷ after)
            ≡ some c)
          × (inbound : Members) × (first (is_tagged (in_tag j.index)) c.inbounds ≡ some inbound)
          × Listens j.alloc_port inbound
          × (route c (in_tag j.index) ≡ some (prepared j.index 0 o))
    unfolding build_config nothing inbound_of
    build_config-routes before after j r o os objects others found outs =
        let c0 = builds nothing before in
        let c1 = adds j (inbound_for j) c0 in
        let lacks =
          builds-Lacks j.index before nothing others
            (record { no_inbound = refl; no_rule = refl; no_outbound = refl }) in
        let tagged = put_member "tag" (text (in_tag j.index)) r in
        let own : Has j.index tagged (prepared j.index 0 o) c1 =
          subst (λ q. Has j.index tagged (prepared j.index 0 o) (adds j q c0)) (sym found)
            (adds-Has j r o os c0 outs lacks) in
        let has : Has j.index tagged (prepared j.index 0 o) (builds nothing (before ++ j ∷ after)) =
          subst (Has j.index tagged (prepared j.index 0 o))
            (sym (build_from-append before (j ∷ after) nothing))
            (builds-Has j.index tagged (prepared j.index 0 o) after c1 own) in
        (
          builds nothing (before ++ j ∷ after),
          build_from-objects (before ++ j ∷ after) nothing objects,
          tagged,
          has.an_inbound,
          tagged-Listens j.alloc_port (in_tag j.index) r
              (inbound_with-Listens j (as_int integral j.socks_port) j.outbounds r found),
          Has-route j.index tagged (prepared j.index 0 o) (builds nothing (before ++ j ∷ after))
              has,
        )
