-- ===== src/Ebpf/Cidr.antt =====
-- The two parsers of a block agree.
use Prim.Native.Nat.{bit_and}
use asmodeus.Prelude.Opt.{◌>>=◌, ◌>>◌, require}
use asmodeus.Dsl.Net.{u32_max, prefix_mask, from_be_bytes, parse_octets, parse_ipv4_cidr}
use asmodeus.Ebpf.{swap_bytes, next_octets, next_is_none, parse_cidr_be}
use asmodeus.Prelude.{
  ℕ, zero, suc, ◌+◌, ◌≡◌, refl, List, [], ◌∷◌, ◌++◌, Option, none, some, arith, Text, split,
  split_once, parse_unsigned, nat_eq, leb, Option-cases, Bool-cases, false, inl, inr,
}

-- The rest of the loop with `n` octets to go, against the loop that counts them.
next_octets-parse :
    (n k : ℕ) (octets : List ℕ) (parts : List Text)
    → n + k ≡ 4
    → (next_octets n octets parts >>= λ r. require (next_is_none r.1) >> some r.0)
      ≡ parse_octets k octets parts
unfolding next_octets parse_octets
next_octets-parse zero k octets [] h = ground arith
next_octets-parse zero k octets (p ∷ parts) h = ground arith
next_octets-parse (suc n) k octets [] h = ground arith
next_octets-parse (suc n) k octets (p ∷ parts) h =
    let more : nat_eq k 4 ≡ false = ground arith in
    elim (Option-cases (parse_unsigned 255 p)) [
      | inl e ↦ rw (more, e)
      | inr (b, e) ↦
          rw (more, e) (next_octets-parse n (suc k) (octets ++ b ∷ []) parts (omega arith))
    ]

abbrev be_block : ℕ × ℕ → Option (ℕ × ℕ)
be_block b = some (swap_bytes b.0, swap_bytes (prefix_mask b.1))

octets_agree :
    (prefix : ℕ) (parts : List Text)
    → (do
      (octets, rest) ← next_octets 4 [] parts
      require (next_is_none rest)
      be_block (bit_and (from_be_bytes 0 octets) (prefix_mask prefix), prefix))
      ≡ ((do
        octets ← parse_octets 0 [] parts
        some (bit_and (from_be_bytes 0 octets) (prefix_mask prefix), prefix))
          >>= be_block)
octets_agree prefix parts =
    rw (← next_octets-parse 4 0 [] parts (omega arith)) (go (next_octets 4 [] parts))
  where
    go :
        (r : Option (List ℕ × List Text))
        → (do
          (octets, rest) ← r
          require (next_is_none rest)
          be_block (bit_and (from_be_bytes 0 octets) (prefix_mask prefix), prefix))
          ≡ ((do
            octets ← (r >>= λ r. require (next_is_none r.1) >> some r.0)
            some (bit_and (from_be_bytes 0 octets) (prefix_mask prefix), prefix))
              >>= be_block)
    go none = refl
    go (some (octets, [])) = refl
    go (some (octets, p ∷ rest)) = refl

-- The block that the backend writes for the kernel is the one that the gate has parsed, in the
-- byte order of the wire, and each refuses what the other refuses.
pub parse_cidr_be-agrees :
    (cidr : Text)
    → parse_cidr_be cidr
      ≡ (parse_ipv4_cidr cidr >>= λ b. some (swap_bytes b.0, swap_bytes (prefix_mask b.1)))
unfolding parse_cidr_be parse_ipv4_cidr
parse_cidr_be-agrees cidr = elim (Option-cases (split_once b'/' cidr)) [
  | inl e ↦ rw e
  | inr (p, e) ↦ rw e (elim (Option-cases (parse_unsigned u32_max p.1)) [
    | inl q ↦ rw q
    | inr (n, q) ↦ rw q (elim (Bool-cases (leb n 32)) [
      | inl le ↦ rw le (octets_agree n (split b'.' p.0))
      | inr gt ↦ rw gt
    ])
  ])
]
