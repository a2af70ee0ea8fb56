-- ===== src/Dsl/Net/Masks.antt =====
-- The network masks as arithmetic, and what a parsed block is.
use Prim.Native.Nat.{bit_and}
use native.Mathlib.Nat.{div-mul-le_self, mul-div_left}
use asmodeus.Prelude.Opt.{>>=-eq-some, require-eq-some}
use asmodeus.Prelude.Bits.{bit_and_high, pow_pos, passes_below, passes_below_lem}
use asmodeus.Dsl.Net.{u32_max, prefix_mask, from_be_bytes, parse_octets, parse_ipv4_cidr}
use asmodeus.Prelude.{
  ℕ, suc, ◌-◌, ◌*◌, ◌/◌, ◌^◌, ◌≤◌, ◌<◌, ◌≡◌, refl, sym, ap, ◌∙◌, true, List, [], ◌∷◌, ◌++◌, Option,
  some, arith, Text, nat_eq, nat_eq_iff, All, All-append, parse_unsigned, parse_unsigned-le, split,
  length, length-append, not, split_once, leb, leb→le,
}

mask_table : passes_below (λ p. nat_eq (prefix_mask p) ((2 ^ p - 1) * 2 ^ (32 - p))) 33 ≡ true
unfolding passes_below prefix_mask
mask_table = refl

prefix_mask_lem : (p : ℕ) → p ≤ 32 → prefix_mask p ≡ (2 ^ p - 1) * 2 ^ (32 - p)
prefix_mask_lem p h = (nat_eq_iff _ _).0 (passes_below_lem _ 33 p (omega arith) mask_table)

width_table : passes_below (λ p. nat_eq (2 ^ p * 2 ^ (32 - p)) (2 ^ 32)) 33 ≡ true
unfolding passes_below
width_table = refl

width_lem : (p : ℕ) → p ≤ 32 → 2 ^ p * 2 ^ (32 - p) ≡ 2 ^ 32
width_lem p h = (nat_eq_iff _ _).0 (passes_below_lem _ 33 p (omega arith) width_table)

-- The mask of a prefix clears the host bits of an address.
pub bit_and-prefix_mask :
    (a p : ℕ) → a < 2 ^ 32 → p ≤ 32 → bit_and a (prefix_mask p) ≡ a / 2 ^ (32 - p) * 2 ^ (32 - p)
bit_and-prefix_mask a p h b =
    ap (bit_and a) (prefix_mask_lem p b) ∙ bit_and_high p (32 - p) a (omega (arith, width_lem p b))

abbrev AreOctets : ℕ → List ℕ → Type 0
AreOctets n os = (length os ≡ n) × All (λ b. b ≤ 255) os

from_be_bytes-lt : (os : List ℕ) → AreOctets 4 os → from_be_bytes 0 os < 2 ^ 32
unfolding from_be_bytes
from_be_bytes-lt [] h = absurd (omega arith)
from_be_bytes-lt (a ∷ []) h = absurd (omega arith)
from_be_bytes-lt (a ∷ b ∷ []) h = absurd (omega arith)
from_be_bytes-lt (a ∷ b ∷ c ∷ []) h = absurd (omega arith)
from_be_bytes-lt (a ∷ b ∷ c ∷ d ∷ []) h = omega arith
from_be_bytes-lt (a ∷ b ∷ c ∷ d ∷ e ∷ os) h = absurd (omega arith)

AreOctets-snoc :
    (n b : ℕ) (os : List ℕ) → AreOctets n os → b ≤ 255 → AreOctets (suc n) (os ++ b ∷ [])
AreOctets-snoc n b os h le =
    (omega (arith, length-append os (b ∷ [])), All-append (λ b. b ≤ 255) os (b ∷ []) h.1 (le, tt))

parse_octets-AreOctets :
    (n : ℕ) (octets : List ℕ) (parts : List Text) {os : List ℕ}
    → AreOctets n octets
    → parse_octets n octets parts ≡ some os
    → AreOctets 4 os
unfolding parse_octets
parse_octets-AreOctets n octets [] h e = ground arith
parse_octets-AreOctets n octets (part ∷ parts) h e =
    let (b, q, r) =
      >>=-eq-some (parse_unsigned 255 part) (λ b. parse_octets (suc n) (octets ++ b ∷ []) parts)
        (require-eq-some (not (nat_eq n 4)) _ e).1 in
    parse_octets-AreOctets (suc n) (octets ++ b ∷ []) parts
      (AreOctets-snoc n b octets h (parse_unsigned-le 255 part q)) r

masked_lem :
    (ip p : ℕ)
    → ip < 2 ^ 32
    → p ≤ 32
    → let net = bit_and ip (prefix_mask p) in
      (net < 2 ^ 32) × (net ≡ net / 2 ^ (32 - p) * 2 ^ (32 - p))
masked_lem ip p h b =
    let q = ip / 2 ^ (32 - p) in
    let w = 2 ^ (32 - p) in
    rw (bit_and-prefix_mask ip p h b) (
      omega (arith, div-mul-le_self ip w),
      sym (ap (λ (t : ℕ). t * w) (mul-div_left q (pow_pos (32 - p)))),
    )

masked_some :
    (ip p : ℕ) {net prefix : ℕ}
    → ip < 2 ^ 32
    → p ≤ 32
    → ◌≡◌ {A = Option (ℕ × ℕ)} (some (bit_and ip (prefix_mask p), p)) (some (net, prefix))
    → (prefix ≤ 32) × (net < 2 ^ 32) × (net ≡ net / 2 ^ (32 - prefix) * 2 ^ (32 - prefix))
masked_some ip p h b e = ground (arith, masked_lem ip p h b)

-- A parsed block is a network of 32 bits: its prefix is at most 32 and its host bits are clear.
pub parse_ipv4_cidr_lem :
    (cidr : Text) {net prefix : ℕ}
    → parse_ipv4_cidr cidr ≡ some (net, prefix)
    → (prefix ≤ 32) × (net < 2 ^ 32) × (net ≡ net / 2 ^ (32 - prefix) * 2 ^ (32 - prefix))
unfolding parse_ipv4_cidr
parse_ipv4_cidr_lem cidr e =
    let (parts, q, r) = >>=-eq-some (split_once b'/' cidr) _ e in
    let (p, q1, r1) = >>=-eq-some (parse_unsigned u32_max parts.1) _ r in
    let (le, r2) = require-eq-some (leb p 32) _ r1 in
    let (os, q3, r3) = >>=-eq-some (parse_octets 0 [] (split b'.' parts.0)) _ r2 in
    masked_some (from_be_bytes 0 os) p
      (from_be_bytes-lt os (parse_octets-AreOctets 0 [] _ (refl, tt) q3)) (leb→le p 32 le) r3
