-- ===== src/Witnesses/Gates.antt =====
-- The gates of crates/asmodeus-dsl and crates/asmodeus-runner at concrete inputs.
use asmodeus.Common.Lifecycle.{completed}
use asmodeus.Dsl.Gate.{out_of_scope}
use asmodeus.Dsl.Net.{
  net_target_in_scope, parse_ipv4_cidr, parse_octets, from_be_bytes, block_holds, prefix_mask,
}
use asmodeus.Dsl.Net.Confined.{IsReserved, net_target_in_scope_confined}
use asmodeus.Dsl.Scope.{path_in_scope, trim_end_matches, drop_leading}
use asmodeus.Dsl.Scope.Resolve.{Inside, resolve, path_in_scope_confined, var_canary_dir, canary_dir}
use asmodeus.Ebpf.{
  rule_of_spec, parse_cidr_be, next_octets, swap_bytes, netchaos_egress, shot, ChaosRule,
  load_u16_be, loss_scale, decide, is_armed, matches_dst,
}
use asmodeus.Ebpf.Cidr.{parse_cidr_be-agrees}
use asmodeus.Ebpf.Confined.{dst_of, egress_confined}
use asmodeus.Engine.{execute, execute_lem, rejected}
use asmodeus.Netchaos.{NetChaosSpec, validate, is_loopback, iface_in_scope, strip_prefix, contains}
use asmodeus.Netchaos.Gate.{InBudget, validate_iff}
use asmodeus.Prelude.{
  ℕ, ◌*◌, ◌%◌, ◌≤◌, ◌<◌, ◌≡◌, ◌↔◌, ◌⊎◌, refl, true, arith, List, [], ◌∷◌, some, ok, err, Text, text,
  split, split_from, split_once, parse_unsigned, digits_from, is_digit, starts_with, text_eq, drop,
  if◌then◌else◌,
}
use asmodeus.Prelude.Opt.{◌>>=◌}

abbrev cidr : Text
cidr = text "127.0.0.0/8"

cidr-parses : parse_ipv4_cidr cidr ≡ some (0x7f00_0000, 8)
unfolding parse_ipv4_cidr parse_octets from_be_bytes prefix_mask split split_from split_once
    parse_unsigned digits_from is_digit
cidr-parses = refl

cidr-in_scope : net_target_in_scope cidr ≡ true
unfolding net_target_in_scope block_holds parse_ipv4_cidr parse_octets from_be_bytes prefix_mask
    split split_from split_once parse_unsigned digits_from is_digit
cidr-in_scope = refl

net_target_in_scope_confined_example : IsReserved 0x7f00_0001
net_target_in_scope_confined_example =
    net_target_in_scope_confined cidr 0x7f00_0000 8 0x7f00_0001 cidr-in_scope cidr-parses refl

parse_cidr_be-agrees_example :
    parse_cidr_be cidr
    ≡ (parse_ipv4_cidr cidr >>= λ b. some (swap_bytes b.0, swap_bytes (prefix_mask b.1)))
parse_cidr_be-agrees_example = parse_cidr_be-agrees cidr

abbrev canary : Text
canary = text "/tmp/asmodeus-canary/a"

canary-in_scope : path_in_scope canary ≡ true
unfolding path_in_scope trim_end_matches split split_from starts_with text_eq drop_leading
canary-in_scope = refl

path_in_scope_confined_example :
    Inside var_canary_dir (resolve [] (split b'/' canary))
    ⊎ Inside canary_dir (resolve [] (split b'/' canary))
path_in_scope_confined_example = path_in_scope_confined canary canary-in_scope

execute_lem_example : execute canary ≡ (
    if path_in_scope canary
    then ok (record { final_state = completed })
    else err (rejected out_of_scope))
execute_lem_example = execute_lem canary

abbrev spec : NetChaosSpec
spec = record {
  iface = text "veth0";
  target_cidr = cidr;
  latency_ms = 100;
  jitter_ms = 10;
  loss_pct = 50;
  duration_ms = 1000;
}

spec-valid : validate spec ≡ ok tt
unfolding validate iface_in_scope is_loopback strip_prefix contains starts_with text_eq
    net_target_in_scope block_holds parse_ipv4_cidr parse_octets from_be_bytes prefix_mask split
    split_from split_once parse_unsigned digits_from is_digit
spec-valid = refl

validate_iff_example : (validate spec ≡ ok tt) ↔ InBudget spec
validate_iff_example = validate_iff spec

abbrev rule : ChaosRule
rule = record { dst_net_be = 0x7f; prefix_mask_be = 0xff; loss_permille = 500; flags = 1 }

rule-built : rule_of_spec spec ≡ some rule
unfolding rule_of_spec parse_cidr_be next_octets is_loopback strip_prefix text_eq from_be_bytes
    prefix_mask split split_from split_once parse_unsigned digits_from is_digit
rule-built = refl

-- An IPv4 frame to 127.0.0.1.
abbrev frame : List ℕ
frame =
    0 ∷ 0 ∷ 0 ∷ 0 ∷ 0 ∷ 0 ∷ 0 ∷ 0 ∷ 0 ∷ 0 ∷ 0 ∷ 0 ∷ 8 ∷ 0 ∷ 0 ∷ 0 ∷ 0 ∷ 0 ∷ 0 ∷ 0 ∷ 0 ∷ 0 ∷ 0 ∷ 0
    ∷ 0 ∷ 0 ∷ 0 ∷ 0 ∷ 0 ∷ 0 ∷ 127 ∷ 0 ∷ 0 ∷ 1 ∷ []

frame-dropped : netchaos_egress (some rule) frame 1234 ≡ shot
unfolding netchaos_egress decide is_armed matches_dst
frame-dropped = refl

egress_confined_example :
    ((dst : ℕ) × (dst_of (drop 30 frame) ≡ some dst) × IsReserved dst)
    × (load_u16_be (drop 12 frame) ≡ some 0x0800)
    × (1234 % loss_scale < 50 * 10)
    × (50 * 10 ≤ 500)
egress_confined_example =
    egress_confined spec rule frame 1234 spec-valid rule-built (ground arith) frame-dropped
