-- ===== src/Prelude/Opt.antt =====
-- `?` on an `Option`.
use mathlib.Core.Path.{◌≡◌, refl}
use mathlib.Core.Bool.{Bool, true, false}
use mathlib.Core.Option.{Option, none, some}

infixl 5 ◌>>=◌ ◌>>◌
abbrev pub ◌>>=◌ {ℓ κ} : {A : Type ℓ} {B : Type κ} → Option A → (A → Option B) → Option B
none >>= f = none
some a >>= f = f a

abbrev pub ◌>>◌ {ℓ} : {B : Type ℓ} → Option (Unit {0}) → Option B → Option B
m >> k = m >>= λ _. k

-- `if !test { return None }`.
abbrev pub require : Bool → Option (Unit {0})
require true = some tt
require false = none

pub >>=-eq-some {κ ℓ} :
    {B : Type κ} {A : Type ℓ} (act : Option A) (next : A → Option B) {out : B}
    → (act >>= next) ≡ some out
    → (val : A) × (act ≡ some val) × (next val ≡ some out)
>>=-eq-some (some val) next done = (val, refl, done)
>>=-eq-some none next done = cc

pub require-eq-some {ℓ} :
    {B : Type ℓ} (t : Bool) (k : Option B) {b : B}
    → (require t >> k) ≡ some b
    → (t ≡ true) × (k ≡ some b)
require-eq-some true k h = (refl, h)
require-eq-some false k h = cc
