-- ===== src/PoolConfig/Tests.antt =====
-- A batch of two jobs that declare one port, and the theorem at it.
use mathlib.Core.Option
use radar_node.Base.{ℕ, ◌≡◌, refl, true, false, String, Option, none, some, List, [], ◌∷◌, ℤ, pos}
use radar_node.Wire.{literal, text, Members, closed, member, get_member, put_member}
use radar_node.Netbind.{Library, Binding, is_zero}
use radar_node.PoolConfig.{
  Job, MergedConfig, build_config, build_from, inbound_of, remap_inbound, prepare, prepare_from,
  as_int, apply_domain_strategy, apply_binding, add_mux,
}
use radar_node.PoolConfig.Decimal.{digits, in_tag, out_tag}
use radar_node.PoolConfig.Tags.{first}
use radar_node.PoolConfig.Routes.Paths.{is_tagged, route, Listens}
use radar_node.PoolConfig.Routes.{build_config-routes}

-- The second outbound of the thirteenth job.
a_tag : out_tag 12 1 ≡ "job-12-out-1"
unfolding out_tag digits
a_tag = refl

-- Addresses are texts.
abbrev library : Library String
library = record {
  parse_addr = λ s. some s;
  print = λ a. a;
  unmap = λ a. a;
  is_unspecified = λ a. false;
  is_multicast = λ a. false;
  is4 = λ a. true;
  is6 = λ a. false;
  is_link_local_unicast = λ a. false;
  zone = λ a. "";
  with_zone = λ a z. a;
  trim_space = λ s. s;
  byte_length = λ s. 0;
  has_control = λ s. false;
}

abbrev integral : String → Option ℤ
integral n = some (pos 1080)

abbrev binding : Binding String
binding = record { source_ip = some "10.0.0.1"; interface = "" }

abbrev inbound : Members
inbound = member "listen_port" (literal "1080") closed

abbrev outbound : String → Members
outbound protocol = member "protocol" (text protocol) closed

abbrev job : ℕ → String → String → Job
job index alloc protocol = record {
  index = index;
  alloc_port = alloc;
  inbounds = inbound ∷ [];
  outbounds = some (outbound protocol) ∷ some (outbound "freedom") ∷ [];
  socks_port = some (literal "1080");
}

abbrev two_jobs : List Job
two_jobs = job 0 "20000" "vless" ∷ job 1 "20001" "trojan" ∷ []

-- The second job goes out through its own server, from the node's address.
second_outbound :
    Option.map (λ c. route c "job-1-in") (build_config integral library "UseIPv4" binding two_jobs)
    ≡ some (some (prepare integral library "UseIPv4" binding 1 0 (outbound "trojan")))
unfolding build_config build_from inbound_of remap_inbound prepare prepare_from as_int
    apply_domain_strategy apply_binding add_mux in_tag out_tag digits is_zero get_member put_member
second_outbound = refl

-- A null in one job's outbounds leaves no configuration for the batch.
null_outbound :
    build_config integral library "UseIPv4" binding
      (job 0 "20000" "vless" ∷ record (job 1 "20001" "trojan") { outbounds = none ∷ [] } ∷ [])
    ≡ none
unfolding build_config build_from inbound_of remap_inbound prepare prepare_from as_int
    apply_domain_strategy apply_binding add_mux in_tag out_tag digits is_zero get_member put_member
null_outbound = refl

build_config-routes_example :
    (c : MergedConfig) × (build_config integral library "UseIPv4" binding two_jobs ≡ some c)
    × (entry : Members) × (first (is_tagged (in_tag 1)) c.inbounds ≡ some entry)
    × Listens "20001" entry
    × (route c (in_tag 1)
        ≡ some (prepare integral library "UseIPv4" binding 1 0 (outbound "trojan")))
unfolding inbound_of remap_inbound as_int get_member
build_config-routes_example =
    build_config-routes integral library "UseIPv4" binding (job 0 "20000" "vless" ∷ []) []
      (job 1 "20001" "trojan") (put_member "listen_port" (literal "20001") inbound)
      (outbound "trojan") (some (outbound "freedom") ∷ []) (((tt, (tt, tt)), ((tt, (tt, tt)), tt)))
      (refl, tt) refl refl
