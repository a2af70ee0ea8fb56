-- ===== src/Ebpf/Words.antt =====
-- Words of four bytes: `&` goes byte by byte, so it commutes with a swap of the bytes.
use Prim.Native.Nat.{bit_and}
use asmodeus.Prelude.Bits.{bit_and_fields, bit_and-le}
use asmodeus.Ebpf.{swap_bytes}
use asmodeus.Prelude.{ℕ, ◌+◌, ◌*◌, ◌/◌, ◌%◌, ◌^◌, ◌<◌, ◌≡◌, ◌∙◌, arith}
use mathlib.Core.Path.{ap₂}

abbrev pub word : ℕ → ℕ → ℕ → ℕ → ℕ
word d c b a = ((d * 256 + c) * 256 + b) * 256 + a

-- One byte more.
bit_and_byte :
    (x a y b : ℕ)
    → a < 256
    → b < 256
    → bit_and (x * 256 + a) (y * 256 + b) ≡ bit_and x y * 256 + bit_and a b
bit_and_byte x a y b h k =
    let high : (x a : ℕ) → a < 256 → (x * 256 + a) / 2 ^ 8 ≡ x = λ x a h. omega arith in
    let low : (x a : ℕ) → a < 256 → (x * 256 + a) % 2 ^ 8 ≡ a = λ x a h. omega arith in
    omega (
      arith,
      bit_and_fields 8 (x * 256 + a) (y * 256 + b),
      ap₂ bit_and (high x a h) (high y b k),
      ap₂ bit_and (low x a h) (low y b k),
    )

abbrev AreBytes : ℕ → ℕ → ℕ → ℕ → Type 0
AreBytes d c b a = (d < 256) × (c < 256) × (b < 256) × (a < 256)

bit_and-word :
    (d c b a d' c' b' a' : ℕ)
    → AreBytes d c b a
    → AreBytes d' c' b' a'
    → bit_and (word d c b a) (word d' c' b' a')
      ≡ word (bit_and d d') (bit_and c c') (bit_and b b') (bit_and a a')
bit_and-word d c b a d' c' b' a' h k = omega (
  arith,
  bit_and_byte ((d * 256 + c) * 256 + b) a ((d' * 256 + c') * 256 + b') a' (omega arith)
      (omega arith),
  bit_and_byte (d * 256 + c) b (d' * 256 + c') b' (omega arith) (omega arith),
  bit_and_byte d c d' c' (omega arith) (omega arith),
)

word_bytes :
    (x : ℕ)
    → x < 2 ^ 32
    → x ≡ word (x / 0x100_0000 % 256) (x / 0x1_0000 % 256) (x / 0x100 % 256) (x % 256)
word_bytes x h = omega arith

-- A match of swapped words is a match of the words.
pub bit_and-swap_bytes :
    (x y z : ℕ)
    → x < 2 ^ 32
    → y < 2 ^ 32
    → z < 2 ^ 32
    → bit_and (swap_bytes x) (swap_bytes y) ≡ swap_bytes z
    → bit_and x y ≡ z
bit_and-swap_bytes x y z hx hy hz e =
    ap₂ bit_and (word_bytes x hx) (word_bytes y hy)
    ∙ bit_and-word x3 x2 x1 x0 y3 y2 y1 y0 (omega arith) (omega arith)
    ∙ omega (
      arith,
      e,
      bit_and-word x0 x1 x2 x3 y0 y1 y2 y3 (omega arith) (omega arith),
      bit_and-le x0 y0,
      bit_and-le x1 y1,
      bit_and-le x2 y2,
      bit_and-le x3 y3,
    )
  where
    x0 : ℕ
    x0 = x % 256

    x1 : ℕ
    x1 = x / 0x100 % 256

    x2 : ℕ
    x2 = x / 0x1_0000 % 256

    x3 : ℕ
    x3 = x / 0x100_0000 % 256

    y0 : ℕ
    y0 = y % 256

    y1 : ℕ
    y1 = y / 0x100 % 256

    y2 : ℕ
    y2 = y / 0x1_0000 % 256

    y3 : ℕ
    y3 = y / 0x100_0000 % 256
