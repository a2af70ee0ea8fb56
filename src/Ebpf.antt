-- ===== src/Ebpf.antt =====
-- crates/asmodeus-netchaos-ebpf (the map ABI and the classifier) and the part of
-- crates/asmodeus-runner/src/aya_backend.rs that fills the rule. Both sides are little-endian, as
-- the target bpfel-unknown-none is: `to_be` and `from_be` swap the bytes.
pub mod Cidr
pub mod Words
pub mod Confined
use Prim.Native.Nat.{bit_and}
use asmodeus.Dsl.Net.{u32_max, prefix_mask, from_be_bytes}
use asmodeus.Netchaos.{NetChaosSpec, is_loopback}
use asmodeus.Prelude.Opt.{◌>>=◌, ◌>>◌, require}
use asmodeus.Prelude.{
  ℕ, zero, suc, ◌+◌, ◌*◌, ◌/◌, ◌%◌, Bool, true, false, not, List, [], ◌∷◌, ◌++◌, Option, none, some,
  if◌then◌else◌, Text, split, split_once, parse_unsigned, nat_eq, ltb, leb, drop, is_none,
}

-- `ChaosRule`.
pub record ChaosRule : Type 0 where
  pub dst_net_be : ℕ  -- u32
  pub prefix_mask_be : ℕ  -- u32
  pub loss_permille : ℕ  -- u32
  pub flags : ℕ  -- u32

-- `CHAOS_FLAG_ARMED` and `LOSS_SCALE`.
abbrev pub chaos_flag_armed : ℕ
chaos_flag_armed = 1

abbrev pub loss_scale : ℕ
loss_scale = 1000

-- `ChaosRule::default`.
abbrev pub default_rule : ChaosRule
default_rule = record { dst_net_be = 0; prefix_mask_be = 0; loss_permille = 0; flags = 0 }

-- `ChaosRule::is_armed`.
unfoldable pub is_armed : ChaosRule → Bool
is_armed r = not (nat_eq (bit_and r.flags chaos_flag_armed) 0)

-- `ChaosRule::matches_dst`.
unfoldable pub matches_dst : ChaosRule → ℕ → Bool
matches_dst r dst_be = nat_eq (bit_and dst_be r.prefix_mask_be) r.dst_net_be

pub data Verdict : Type 0 where
  pass shot : Verdict

-- `u32::to_be` on a little-endian machine.
abbrev pub swap_bytes : ℕ → ℕ
swap_bytes x =
    ((x % 256 * 256 + x / 0x100 % 256) * 256 + x / 0x1_0000 % 256) * 256 + x / 0x100_0000 % 256

-- `TcContext::load` of a `u16` and of a `u32`, then of the byte order of the wire: `none` if the
-- frame is too short.
abbrev pub load_u16_be : List ℕ → Option ℕ
load_u16_be (a ∷ b ∷ bs) = some (a * 256 + b)
load_u16_be _ = none

abbrev load_u32 : List ℕ → Option ℕ
load_u32 (a ∷ b ∷ c ∷ d ∷ bs) = some (((d * 256 + c) * 256 + b) * 256 + a)
load_u32 _ = none

-- `decide`: the slot of the map, the frame, and the number that `bpf_get_prandom_u32` draws.
unfoldable pub decide : Option ChaosRule → List ℕ → ℕ → Option Verdict
decide none frame prandom = some pass
decide (some rule) frame prandom = if not (is_armed rule) then some pass else do
  ethertype ← load_u16_be (drop 12 frame)
  if not (nat_eq ethertype 0x0800) then some pass else do
    dst_be ← load_u32 (drop 30 frame)
    if not (matches_dst rule dst_be)
        then some pass
        else if ltb (prandom % loss_scale) rule.loss_permille
        then some shot
        else some pass

-- `netchaos_egress`: what cannot be read is passed.
unfoldable pub netchaos_egress : Option ChaosRule → List ℕ → ℕ → Verdict
netchaos_egress slot frame prandom = elim (decide slot frame prandom) [
  | none ↦ pass
  | some verdict ↦ verdict
]

-- The loop over the four octets of `parse_cidr_be`, and what `parts` has left after it.
unfoldable pub next_octets : ℕ → List ℕ → List Text → Option (List ℕ × List Text)
next_octets zero octets parts = some (octets, parts)
next_octets (suc n) octets [] = none
next_octets (suc n) octets (p ∷ parts) = do
  octet ← parse_unsigned 255 p
  next_octets n (octets ++ octet ∷ []) parts

abbrev next_is_none : List Text → Bool
next_is_none [] = true
next_is_none (p ∷ parts) = false

-- `parse_cidr_be`; `none` is its one error.
unfoldable pub parse_cidr_be : Text → Option (ℕ × ℕ)
parse_cidr_be cidr = do
  (addr, len) ← split_once b'/' cidr
  prefix ← parse_unsigned u32_max len
  require (leb prefix 32)
  (octets, parts) ← next_octets 4 [] (split b'.' addr)
  require (next_is_none parts)
  some (
    swap_bytes (bit_and (from_be_bytes 0 octets) (prefix_mask prefix)),
    swap_bytes (prefix_mask prefix),
  )

-- The rule that `AyaTcBackend::apply` writes into the map: `none` where it refuses the spec.
unfoldable pub rule_of_spec : NetChaosSpec → Option ChaosRule
rule_of_spec spec = do
  require (not (is_loopback spec.iface))
  (net_be, mask_be) ← parse_cidr_be spec.target_cidr
  some (record {
    dst_net_be = net_be;
    prefix_mask_be = mask_be;
    loss_permille = spec.loss_pct * (loss_scale / 100);
    flags = chaos_flag_armed;
  })
