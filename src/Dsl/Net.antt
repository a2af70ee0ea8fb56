-- ===== src/Dsl/Net.antt =====
-- crates/asmodeus-dsl/src/lib.rs: the addresses that a chaos rule may disturb.
pub mod Masks
pub mod Confined
use Prim.Native.Nat.{bit_and}
use asmodeus.Prelude.{
  ℕ, suc, ◌+◌, ◌-◌, ◌*◌, ◌%◌, ◌^◌, ◌≡◌, Bool, true, false, ◌&&◌, List, [], ◌∷◌, ◌++◌, Option, none,
  some, if◌then◌else◌, Text, any, split, split_once, parse_unsigned, nat_eq, ltb, leb, not,
}
use asmodeus.Prelude.Opt.{◌>>=◌, ◌>>◌, require}

abbrev pub u32_max : ℕ
u32_max = 0xffff_ffff

-- The masks of `parse_ipv4_cidr` and `net_target_in_scope`: `u32::MAX << (32 - prefix)`.
unfoldable pub prefix_mask : ℕ → ℕ
prefix_mask prefix = if nat_eq prefix 0 then 0 else u32_max * 2 ^ (32 - prefix) % 2 ^ 32

-- `NET_TEST_BLOCKS`.
abbrev pub net_test_blocks : List (ℕ × ℕ)
net_test_blocks = (0x7f00_0000, 8) ∷ (0xc000_0200, 24) ∷ (0xc633_6400, 24) ∷ (0xcb00_7100, 24) ∷ []

-- `u32::from_be_bytes`.
unfoldable pub from_be_bytes : ℕ → List ℕ → ℕ
from_be_bytes acc [] = acc
from_be_bytes acc (b ∷ bs) = from_be_bytes (acc * 256 + b) bs

-- The loop over the parts between the dots: `octets` holds those read, `n` counts them.
unfoldable pub parse_octets : ℕ → List ℕ → List Text → Option (List ℕ)
parse_octets n octets [] = do require (nat_eq n 4); some octets
parse_octets n octets (part ∷ parts) = do
  require (not (nat_eq n 4))
  octet ← parse_unsigned 255 part
  parse_octets (suc n) (octets ++ octet ∷ []) parts

-- `parse_ipv4_cidr`.
unfoldable pub parse_ipv4_cidr : Text → Option (ℕ × ℕ)
parse_ipv4_cidr cidr = do
  (addr, len) ← split_once b'/' cidr
  prefix ← parse_unsigned u32_max len
  require (leb prefix 32)
  octets ← parse_octets 0 [] (split b'.' addr)
  some (bit_and (from_be_bytes 0 octets) (prefix_mask prefix), prefix)

-- The test of one block in `net_target_in_scope`.
unfoldable pub block_holds : ℕ → ℕ → ℕ × ℕ → Bool
block_holds net prefix (block_net, block_prefix) =
    if ltb prefix block_prefix
    then false
    else nat_eq (bit_and net (prefix_mask block_prefix)) block_net

-- `net_target_in_scope`.
unfoldable pub net_target_in_scope : Text → Bool
net_target_in_scope cidr = elim (parse_ipv4_cidr cidr) [
  | none ↦ false
  | some (net, prefix) ↦ any (block_holds net prefix) net_test_blocks
]
