-- ===== src/Ebpf/Confined.antt =====
-- From the gate to the kernel: what the classifier drops.
use Prim.Native.Nat.{bit_and}
use native.Mathlib.Nat.{mul-div_left}
use mathlib.Core.Path.{ap₂}
use asmodeus.Prelude.Bits.{pow_pos, passes_below, passes_below_lem}
use asmodeus.Prelude.Opt.{>>=-eq-some, require-eq-some}
use asmodeus.Dsl.Net.{prefix_mask, parse_ipv4_cidr}
use asmodeus.Dsl.Net.Masks.{bit_and-prefix_mask, parse_ipv4_cidr_lem}
use asmodeus.Dsl.Net.Confined.{Covers, IsReserved, net_target_in_scope_confined}
use asmodeus.Netchaos.{NetChaosSpec, validate, is_loopback}
use asmodeus.Netchaos.Gate.{validate_iff}
use asmodeus.Ebpf.{
  ChaosRule, shot, is_armed, matches_dst, swap_bytes, load_u16_be, load_u32, decide,
  netchaos_egress, parse_cidr_be, rule_of_spec, loss_scale,
}
use asmodeus.Ebpf.Cidr.{parse_cidr_be-agrees}
use asmodeus.Ebpf.Words.{bit_and-swap_bytes}
use asmodeus.Prelude.{
  ℕ, zero, suc, ◌+◌, ◌-◌, ◌*◌, ◌/◌, ◌%◌, ◌^◌, ◌≤◌, ◌<◌, ◌≡◌, refl, sym, ap, ◌∙◌, true, not, List,
  [], ◌∷◌, Option, none, some, arith, ok, ltb, nat_eq_iff, ltb→lt, drop, All,
}

-- The IPv4 destination of an Ethernet frame.
abbrev pub dst_of : List ℕ → Option ℕ
dst_of (a ∷ b ∷ c ∷ d ∷ bs) = some (((a * 256 + b) * 256 + c) * 256 + d)
dst_of _ = none

abbrev Dropped : ChaosRule → List ℕ → ℕ → Type 0
Dropped rule frame prandom =
    (is_armed rule ≡ true)
    × (load_u16_be (drop 12 frame) ≡ some 0x0800)
    × ((dst : ℕ) × (load_u32 (drop 30 frame) ≡ some dst) × (matches_dst rule dst ≡ true))
    × (prandom % loss_scale < rule.loss_permille)

shot-Dropped :
    (rule : ChaosRule) (frame : List ℕ) (prandom : ℕ)
    → netchaos_egress (some rule) frame prandom ≡ shot
    → Dropped rule frame prandom
unfolding netchaos_egress decide
shot-Dropped rule frame prandom h =
    go (load_u16_be (drop 12 frame)) refl (load_u32 (drop 30 frame)) refl
  where
    go :
        (t : Option ℕ)
        → load_u16_be (drop 12 frame) ≡ t
        → (d : Option ℕ) → load_u32 (drop 30 frame) ≡ d
        → Dropped rule frame prandom
    go none e d q = absurd (ground arith)
    go (some t) e none q = absurd (ground arith)
    go (some t) e (some d) q =
        (ground arith, ground (arith, nat_eq_iff t 0x0800), (d, q, ground arith), ground arith)

mask_small_table : passes_below (λ p. ltb (prefix_mask p) (2 ^ 32)) 33 ≡ true
unfolding passes_below prefix_mask
mask_small_table = refl

prefix_mask-lt : (p : ℕ) → p ≤ 32 → prefix_mask p < 2 ^ 32
prefix_mask-lt p h = ltb→lt _ _ (passes_below_lem _ 33 p (omega arith) mask_small_table)

-- The test of the classifier, in the byte order of the host, is the one of a block.
matches-Covers :
    (net prefix dst : ℕ)
    → prefix ≤ 32
    → net < 2 ^ 32
    → net ≡ net / 2 ^ (32 - prefix) * 2 ^ (32 - prefix)
    → dst < 2 ^ 32
    → bit_and (swap_bytes dst) (swap_bytes (prefix_mask prefix)) ≡ swap_bytes net
    → Covers net prefix dst
matches-Covers net prefix dst le small clear hd e =
    sym (mul-div_left (dst / w) (pow_pos (32 - prefix)))
    ∙ ap (λ (t : ℕ). t / w)
        (sym (bit_and-prefix_mask dst prefix hd le)
          ∙ bit_and-swap_bytes dst (prefix_mask prefix) net hd (prefix_mask-lt prefix le) small e)
  where
    w : ℕ
    w = 2 ^ (32 - prefix)

-- What `load` reads of a frame of bytes is the destination with its bytes swapped.
load-dst_of :
    (bs : List ℕ) {raw : ℕ}
    → All (λ b. b < 256) bs
    → load_u32 bs ≡ some raw
    → (dst : ℕ) × (dst_of bs ≡ some dst) × (dst < 2 ^ 32) × (raw ≡ swap_bytes dst)
load-dst_of [] h e = cc
load-dst_of (a ∷ []) h e = cc
load-dst_of (a ∷ b ∷ []) h e = cc
load-dst_of (a ∷ b ∷ c ∷ []) h e = cc
load-dst_of (a ∷ b ∷ c ∷ d ∷ bs) {raw} h e =
    let is : raw ≡ ((d * 256 + c) * 256 + b) * 256 + a = ground arith in
    (((a * 256 + b) * 256 + c) * 256 + d, refl, omega arith, omega arith)

All-drop : (n : ℕ) (bs : List ℕ) → All (λ b. b < 256) bs → All (λ b. b < 256) (drop n bs)
All-drop zero bs h = h
All-drop (suc n) [] h = tt
All-drop (suc n) (b ∷ bs) h = All-drop n bs h.1

abbrev RuleOf : NetChaosSpec → ChaosRule → Type 0
RuleOf spec rule =
    (net prefix : ℕ) × (parse_ipv4_cidr spec.target_cidr ≡ some (net, prefix))
    × (rule.dst_net_be ≡ swap_bytes net)
    × (rule.prefix_mask_be ≡ swap_bytes (prefix_mask prefix))
    × (rule.loss_permille ≡ spec.loss_pct * 10)

rule_of_spec-RuleOf :
    (spec : NetChaosSpec) (rule : ChaosRule) → rule_of_spec spec ≡ some rule → RuleOf spec rule
unfolding rule_of_spec
rule_of_spec-RuleOf spec rule e =
    let (live, r) = require-eq-some (not (is_loopback spec.iface)) _ e in
    let (be, q, r1) = >>=-eq-some (parse_cidr_be spec.target_cidr) _ r in
    let (block, q1, r2) =
      >>=-eq-some (parse_ipv4_cidr spec.target_cidr) _
        (sym (parse_cidr_be-agrees spec.target_cidr) ∙ q) in
    (block.0, block.1, q1, ground (arith, r1, r2), ground (arith, r1, r2), ground (arith, r1))

-- A frame is dropped only under a rule whose spec has passed the gate, and then it is IPv4, its
-- destination is of a reserved test block, and the draw is below the loss of the spec, at most one
-- in two.
pub egress_confined :
    (spec : NetChaosSpec) (rule : ChaosRule) (frame : List ℕ) (prandom : ℕ)
    → validate spec ≡ ok tt
    → rule_of_spec spec ≡ some rule
    → All (λ b. b < 256) frame
    → netchaos_egress (some rule) frame prandom ≡ shot
    → ((dst : ℕ) × (dst_of (drop 30 frame) ≡ some dst) × IsReserved dst)
      × (load_u16_be (drop 12 frame) ≡ some 0x0800)
      × (prandom % loss_scale < spec.loss_pct * 10)
      × (spec.loss_pct * 10 ≤ 500)
unfolding matches_dst
egress_confined spec rule frame prandom valid built bytes dropped =
    let (armed, ipv4, (raw, loaded, matched), drawn) = shot-Dropped rule frame prandom dropped in
    let (net, prefix, parsed, is_net, is_mask, is_loss) = rule_of_spec-RuleOf spec rule built in
    let (dst, read, small, swapped) =
      load-dst_of (drop 30 frame) (All-drop 30 frame bytes) loaded in
    let (le, net_small, clear) = parse_ipv4_cidr_lem spec.target_cidr parsed in
    let gate = (validate_iff spec).0 valid in
    let eq : bit_and (swap_bytes dst) (swap_bytes (prefix_mask prefix)) ≡ swap_bytes net =
      ap₂ bit_and (sym swapped) (sym is_mask) ∙ (nat_eq_iff _ _).0 matched ∙ is_net in
    (
      (
        dst,
        read,
        net_target_in_scope_confined spec.target_cidr net prefix dst gate.target parsed
            (matches-Covers net prefix dst le net_small clear small eq),
      ),
      ipv4,
      omega arith,
      omega arith,
    )
