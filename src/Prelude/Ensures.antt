-- ===== src/Prelude/Ensures.antt =====
-- What every success of a fallible step satisfies, with a rule for each form of a `do` block.
use mathlib.Core.Path.{◌≡◌, refl, subst}
use mathlib.Core.Bool.{Bool, true, false}
use asmodeus.Prelude.Tests.{Result, ok, err, ◌>>=◌, ◌>>◌, reject_if}

pub data Ensures {ℓ κ μ} {E : Type μ} {A : Type ℓ} (Q : A → Type κ)
    : Result E A → Type (ℓ ⊔ κ ⊔ μ) where
  succeeds : {a : A} → Q a → Ensures Q (ok a)
  stops : {e : E} → Ensures Q (err e)

module _ {ℓ κ μ} {E : Type μ} {A : Type ℓ} {Q : A → Type κ} where
  -- From the knowledge of a success, as an equation.
  pub from_ok : (r : Result E A) → ((a : A) → r ≡ ok a → Q a) → Ensures Q r
  from_ok (ok a) h = succeeds (h a refl)
  from_ok (err e) h = stops

  pub result_of : {r : Result E A} {a : A} → Ensures Q r → r ≡ ok a → Q a
  result_of (succeeds q) e = subst Q (cc) q
  result_of stops e = cc

  pub after_test :
      (t : Bool) (e : E) {k : Result E A}
      → (t ≡ false → Ensures Q k)
      → Ensures Q (reject_if t e >> k)
  after_test true e h = stops
  after_test false e h = h refl

  pub after_step {ℓ' κ'} :
      {B : Type ℓ'} {P : B → Type κ'} {r : Result E B} {f : B → Result E A}
      → Ensures P r
      → ((b : B) → P b → Ensures Q (f b))
      → Ensures Q (r >>= f)
  after_step (succeeds {a} p) k = k a p
  after_step stops k = stops

  -- A step of which nothing is used.
  pub after_any {ℓ'} :
      {B : Type ℓ'} (r : Result E B) {f : B → Result E A}
      → ((b : B) → Ensures Q (f b))
      → Ensures Q (r >>= f)
  after_any (ok b) k = k b
  after_any (err e) k = stops
