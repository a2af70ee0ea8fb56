-- ===== src/Prelude/Bits.antt =====
-- `&` on unsigned words: the law for the lowest digit, masks of the high bits, fields of bits.
use Prim.Native.Nat.{
  ℕ, zero, suc, ◌+◌, ◌-◌, ◌*◌, ◌/◌, ◌%◌, ◌^◌, ◌≤◌, ◌<◌, min, bit_and, digits, bit_and-bitwise,
}
use Prim.Native.Nat.add
use mathlib.Core.Path.{◌≡◌, refl, ap, ap₂, sym, ◌∙◌}
use mathlib.Core.Bool.{Bool, true, ◌&&◌}
use native.Mathlib.Omega.{arith}
use native.Mathlib.Nat.{
  pow-suc, pow-succ', div-div-eq-div-mul, div-lt_iff_lt-mul, mod-eq-sub-mul-div, mul-div-le,
  mul_assoc, one-le-pow,
}

-- The definition that the native operation stands for, and what one unit of fuel more than the
-- number needs changes in it: nothing.
abbrev conj : ℕ → ℕ → ℕ → ℕ
conj = digits (λ _. zero) min

spare_unit : (n x y : ℕ) → x ≤ n → conj (suc n) x y ≡ conj n x y
spare_unit zero zero y small = refl
spare_unit (suc n) zero y small = refl
spare_unit zero (suc x) y small = absurd (omega arith)
spare_unit (suc n) (suc x) y small =
    let smaller : suc x / 2 ≤ n = omega arith in
    omega (arith, spare_unit n (suc x / 2) (y / 2) smaller)

spare_fuel : (k x y : ℕ) → conj (k + x) x y ≡ conj x x y
spare_fuel zero x y = ap (λ (n : ℕ). conj n x y) (omega arith)
spare_fuel (suc k) x y =
    let moved : suc k + x ≡ suc (k + x) = omega arith in
    ap (λ (n : ℕ). conj n x y) moved ∙ spare_unit (k + x) x y (omega arith) ∙ spare_fuel k x y

zero-bit_and : (y : ℕ) → bit_and 0 y ≡ 0
zero-bit_and y = bit_and-bitwise 0 y

-- The lowest digit of `&`, and the rest.
pub bit_and_step : (x y : ℕ) → bit_and x y ≡ bit_and (x / 2) (y / 2) * 2 + min (x % 2) (y % 2)
bit_and_step zero y =
    let none_left = zero-bit_and (y / 2) in omega (arith, zero-bit_and y, none_left)
bit_and_step (suc x) y =
    let half : ℕ = suc x / 2 in
    let enough : x ≡ x - half + half = omega arith in
    let unspent : conj x half (y / 2) ≡ conj half half (y / 2) =
      ap (λ (n : ℕ). conj n half (y / 2)) enough ∙ spare_fuel (x - half) half (y / 2) in
    omega (arith, unspent, bit_and-bitwise half (y / 2), bit_and-bitwise (suc x) y)

-- All of the low `n` bits are kept.
bit_and_ones : (n a : ℕ) → a < 2 ^ n → bit_and a (2 ^ n - 1) ≡ a
bit_and_ones zero zero h = zero-bit_and (2 ^ 0 - 1)
bit_and_ones zero (suc a) h = absurd (omega arith)
bit_and_ones (suc n) a h = omega (
  arith,
  pow-suc 2 n,
  bit_and_step a (2 ^ suc n - 1),
  bit_and_ones n (a / 2) (omega (arith, pow-suc 2 n)),
  ap (bit_and (a / 2)) half,
)
  where
    half : (2 ^ suc n - 1) / 2 ≡ 2 ^ n - 1
    half = omega (arith, pow-suc 2 n)

shift_half : (m k : ℕ) → m * 2 ^ suc k / 2 ≡ m * 2 ^ k
shift_half m k = omega (arith, ap (λ (t : ℕ). m * t) (pow-suc 2 k))

shift_even : (m k : ℕ) → m * 2 ^ suc k % 2 ≡ 0
shift_even m k = omega (arith, ap (λ (t : ℕ). m * t) (pow-suc 2 k))

pub pow_pos : (k : ℕ) → 0 < 2 ^ k
pow_pos k = one-le-pow k 2 (omega arith)

half_shift : (a k : ℕ) → a / 2 / 2 ^ k ≡ a / 2 ^ suc k
half_shift a k = div-div-eq-div-mul a 2 (2 ^ k) ∙ ap (λ (t : ℕ). a / t) (sym (pow-succ' 2 k))

-- A mask with `k` zeros at its low end clears the low `k` bits of the number.
pub bit_and_shifted : (k m a : ℕ) → bit_and a (m * 2 ^ k) ≡ bit_and (a / 2 ^ k) m * 2 ^ k
bit_and_shifted zero m a =
    let e : m * 2 ^ 0 ≡ m = omega arith in
    let e' : a / 2 ^ 0 ≡ a = omega arith in
    omega (arith, ap (bit_and a) e, ap (λ (t : ℕ). bit_and t m) e')
bit_and_shifted (suc k) m a = omega (
  arith,
  bit_and_step a (m * 2 ^ suc k),
  ap (bit_and (a / 2)) (shift_half m k),
  shift_even m k,
  bit_and_shifted k m (a / 2),
  ap (λ (t : ℕ). bit_and t m) (half_shift a k),
  ap (λ (t : ℕ). bit_and (a / 2 ^ suc k) m * t) (pow-suc 2 k),
  ap (λ (t : ℕ). t * 2 ^ k) (ap (λ (t : ℕ). bit_and t m) (half_shift a k)),
)

-- The mask of the high `n` bits of a word of `n + k` bits.
pub bit_and_high :
    (n k a : ℕ) → a < 2 ^ n * 2 ^ k → bit_and a ((2 ^ n - 1) * 2 ^ k) ≡ a / 2 ^ k * 2 ^ k
bit_and_high n k a h =
    bit_and_shifted k (2 ^ n - 1) a
    ∙ ap (λ (t : ℕ). t * 2 ^ k) (bit_and_ones n (a / 2 ^ k) ((div-lt_iff_lt-mul (pow_pos k)).1 h))

double : (a w : ℕ) → 2 ^ suc w * (a / 2 ^ suc w) ≡ 2 * (2 ^ w * (a / 2 / 2 ^ w))
double a w = ap₂ ◌*◌ (pow-succ' 2 w) (sym (half_shift a w)) ∙ mul_assoc 2 (2 ^ w) (a / 2 / 2 ^ w)

mod_half : (a w : ℕ) → a % 2 ^ suc w / 2 ≡ a / 2 % 2 ^ w
mod_half a w =
    omega (arith, mod-eq-sub-mul-div a (2 ^ suc w), mod-eq-sub-mul-div (a / 2) (2 ^ w), double a w)

mod_even : (a w : ℕ) → a % 2 ^ suc w % 2 ≡ a % 2
mod_even a w = omega (arith, mod-eq-sub-mul-div a (2 ^ suc w), double a w, mul-div-le a (2 ^ suc w))

-- Two words side by side.
pub bit_and_fields :
    (w a b : ℕ)
    → bit_and a b ≡ bit_and (a / 2 ^ w) (b / 2 ^ w) * 2 ^ w + bit_and (a % 2 ^ w) (b % 2 ^ w)
bit_and_fields zero a b =
    let e : (x : ℕ) → x / 2 ^ 0 ≡ x = λ x. omega arith in
    let z : (x : ℕ) → x % 2 ^ 0 ≡ 0 = λ x. omega arith in
    omega (arith, ap₂ bit_and (e a) (e b), ap₂ bit_and (z a) (z b))
bit_and_fields (suc w) a b = omega (
  arith,
  bit_and_step a b,
  bit_and_step (a % 2 ^ suc w) (b % 2 ^ suc w),
  ap₂ bit_and (mod_half a w) (mod_half b w),
  mod_even a w,
  mod_even b w,
  bit_and_fields w (a / 2) (b / 2),
  ap₂ bit_and (half_shift a w) (half_shift b w),
  ap (λ (t : ℕ). bit_and (a / 2 ^ suc w) (b / 2 ^ suc w) * t) (pow-suc 2 w),
  ap (λ (t : ℕ). t * 2 ^ w) (ap₂ bit_and (half_shift a w) (half_shift b w)),
)

pub pow_split : (k j : ℕ) → 2 ^ k * 2 ^ j ≡ 2 ^ (j + k)
pow_split k zero = rw (add.zero k) (omega arith)
pow_split k (suc j) =
    rw (add.suc j k)
      (omega (arith, pow_split k j, pow-suc 2 (j + k), ap (λ (t : ℕ). 2 ^ k * t) (pow-suc 2 j)))

-- A test of every number below a bound, by evaluation.
unfoldable pub passes_below : (ℕ → Bool) → ℕ → Bool
passes_below test zero = true
passes_below test (suc bound) = let rest = passes_below test bound in rest && test bound

pub passes_below_lem :
    (test : ℕ → Bool) (bound n : ℕ) → n < bound → passes_below test bound ≡ true → test n ≡ true
unfolding passes_below
passes_below_lem test zero n small table = absurd (omega arith)
passes_below_lem test (suc bound) n small table = ground (arith, passes_below_lem test bound n)

bit_and-le_fuel : (n a b : ℕ) → a ≤ n → bit_and a b ≤ a
bit_and-le_fuel zero zero b h = omega (arith, zero-bit_and b)
bit_and-le_fuel zero (suc a) b h = absurd (omega arith)
bit_and-le_fuel (suc n) zero b h = omega (arith, zero-bit_and b)
bit_and-le_fuel (suc n) (suc a) b h =
    omega (arith, bit_and_step (suc a) b, bit_and-le_fuel n (suc a / 2) (b / 2) (omega arith))

pub bit_and-le : (a b : ℕ) → bit_and a b ≤ a
bit_and-le a b = bit_and-le_fuel a a b (omega arith)
