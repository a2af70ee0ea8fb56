-- ===== src/Dsl/Net/Confined.antt =====
-- Every address that a rule in scope can match is of a reserved test block.
use Prim.Native.Nat.{bit_and}
use native.Mathlib.Nat.{div-div-eq-div-mul}
use asmodeus.Prelude.Bits.{pow_split}
use asmodeus.Dsl.Net.{
  prefix_mask, net_test_blocks, parse_ipv4_cidr, block_holds, net_target_in_scope,
}
use asmodeus.Dsl.Net.Masks.{bit_and-prefix_mask, parse_ipv4_cidr_lem}
use asmodeus.Prelude.{
  ℕ, ◌+◌, ◌-◌, ◌*◌, ◌/◌, ◌^◌, ◌≤◌, ◌<◌, ◌≡◌, sym, ap, ◌∙◌, ◌⊎◌, inl, inr, true, some, arith, Text,
  nat_eq_iff, any,
}

-- The address lies in the block `net/prefix`.
abbrev pub Covers : ℕ → ℕ → ℕ → Type 0
Covers net prefix addr = addr / 2 ^ (32 - prefix) ≡ net / 2 ^ (32 - prefix)

-- 127.0.0.0/8, 192.0.2.0/24, 198.51.100.0/24 and 203.0.113.0/24, by the bytes of the address.
abbrev pub IsReserved : ℕ → Type 0
IsReserved addr =
    (addr / 2 ^ 24 ≡ 127)
    ⊎ (addr / 2 ^ 8 ≡ (192 * 256 + 0) * 256 + 2)
    ⊎ (addr / 2 ^ 8 ≡ (198 * 256 + 51) * 256 + 100)
    ⊎ (addr / 2 ^ 8 ≡ (203 * 256 + 0) * 256 + 113)

-- Addresses that agree on a long prefix agree on a shorter one.
Covers-shorter : (a b k m : ℕ) → k ≤ m → a / 2 ^ k ≡ b / 2 ^ k → a / 2 ^ m ≡ b / 2 ^ m
Covers-shorter a b k m h e = down a ∙ ap (λ (t : ℕ). t / 2 ^ (m - k)) e ∙ sym (down b)
  where
    total : 2 ^ k * 2 ^ (m - k) ≡ 2 ^ m
    total = let e : m - k + k ≡ m = omega arith in pow_split k (m - k) ∙ ap (λ (t : ℕ). 2 ^ t) e

    down : (x : ℕ) → x / 2 ^ m ≡ x / 2 ^ k / 2 ^ (m - k)
    down x = ap (λ (t : ℕ). x / t) (sym total) ∙ sym (div-div-eq-div-mul x (2 ^ k) (2 ^ (m - k)))

block_holds-shift :
    (net prefix block bp addr : ℕ)
    → net < 2 ^ 32
    → bp ≤ 32
    → block_holds net prefix (block, bp) ≡ true
    → Covers net prefix addr
    → addr / 2 ^ (32 - bp) * 2 ^ (32 - bp) ≡ block
unfolding block_holds
block_holds-shift net prefix block bp addr h b holds covers =
    ap (λ (t : ℕ). t * 2 ^ (32 - bp))
      (Covers-shorter addr net (32 - prefix) (32 - bp) (ground arith) covers)
    ∙ sym (bit_and-prefix_mask net bp h b)
    ∙ ground (arith, nat_eq_iff (bit_and net (prefix_mask bp)) block)

abbrev Holds : ℕ → ℕ → Type 0
Holds net prefix =
    (block_holds net prefix (0x7f00_0000, 8) ≡ true)
    ⊎ (block_holds net prefix (0xc000_0200, 24) ≡ true)
    ⊎ (block_holds net prefix (0xc633_6400, 24) ≡ true)
    ⊎ (block_holds net prefix (0xcb00_7100, 24) ≡ true)

net_target_in_scope-Holds :
    (cidr : Text) (net prefix : ℕ)
    → net_target_in_scope cidr ≡ true
    → parse_ipv4_cidr cidr ≡ some (net, prefix)
    → Holds net prefix
unfolding net_target_in_scope
net_target_in_scope-Holds cidr net prefix h e = split_blocks (rw (e, net_target_in_scope) at h)
  where
    split_blocks : any (block_holds net prefix) net_test_blocks ≡ true → Holds net prefix
    split_blocks g = ground arith

-- Where the gate admits a target, each address that the target covers is of a reserved block.
pub net_target_in_scope_confined :
    (cidr : Text) (net prefix addr : ℕ)
    → net_target_in_scope cidr ≡ true
    → parse_ipv4_cidr cidr ≡ some (net, prefix)
    → Covers net prefix addr
    → IsReserved addr
net_target_in_scope_confined cidr net prefix addr h e covers =
    go (net_target_in_scope-Holds cidr net prefix h e)
  where
    small : net < 2 ^ 32
    small = (parse_ipv4_cidr_lem cidr e).1

    at :
        (block bp : ℕ)
        → bp ≤ 32
        → block_holds net prefix (block, bp) ≡ true
        → addr / 2 ^ (32 - bp) * 2 ^ (32 - bp) ≡ block
    at block bp b g = block_holds-shift net prefix block bp addr small b g covers

    go : Holds net prefix → IsReserved addr
    go (inl g) = inl (omega (arith, at 0x7f00_0000 8 (omega arith) g))
    go (inr (inl g)) = inr (inl (omega (arith, at 0xc000_0200 24 (omega arith) g)))
    go (inr (inr (inl g))) = inr (inr (inl (omega (arith, at 0xc633_6400 24 (omega arith) g))))
    go (inr (inr (inr g))) = inr (inr (inr (omega (arith, at 0xcb00_7100 24 (omega arith) g))))
