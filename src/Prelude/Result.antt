-- ===== src/Prelude/Result.antt =====
-- Code that throws: a value, or the text of the exception (its fixed part, where the code appends a
-- value to it).
use Prim.{Unit, tt}
use Prim.Native.String.{String}
use mathlib.Core.Bool.{Bool, true, false}
use mathlib.Core.Path.{◌≡◌, refl}

pub data Result {ℓ} (A : Type ℓ) : Type ℓ where
  err : String → Result A
  ok : A → Result A

-- `if (!test) throw Error(message)`.
abbrev pub require : Bool → String → Result (Unit {0})
require false message = err message
require true message = ok tt

infixl 5 ◌>>=◌
abbrev pub ◌>>=◌ {ℓ κ} : {A : Type ℓ} {B : Type κ} → Result A → (A → Result B) → Result B
err message >>= next = err message
ok value >>= next = next value

-- A check, and what follows it.
infixl 5 ◌>>◌
abbrev pub ◌>>◌ {ℓ} : {B : Type ℓ} → Result (Unit {0}) → Result B → Result B
check >> after = check >>= λ _. after

-- What succeeds in two steps succeeds in the first, with a value that the second step takes.
pub bind-eq-ok {ℓ κ} :
    {A : Type ℓ} {B : Type κ} {result : B} (first : Result A) (next : A → Result B)
    → (first >>= next) ≡ ok result
    → (value : A) × (first ≡ ok value) × (next value ≡ ok result)
bind-eq-ok (err message) next h = cc
bind-eq-ok (ok value) next h = (value, refl, h)

pub require-eq-ok {ℓ} :
    {B : Type ℓ} (test : Bool) (message : String) (k : Result B) {b : B}
    → (require test message >> k) ≡ ok b
    → (test ≡ true) × (k ≡ ok b)
require-eq-ok true message k h = (refl, h)
require-eq-ok false message k h = cc

pub require_lem {ℓ} :
    {B : Type ℓ} (test : Bool) (message : String) (k : Result B)
    → test ≡ true
    → (require test message >> k) ≡ k
require_lem true message k h = refl
require_lem false message k h = cc

pub ok_injective {ℓ} : {A : Type ℓ} (a b : A) → ok a ≡ ok b → a ≡ b
ok_injective a b h = cc

abbrev pub is_ok {ℓ} : {A : Type ℓ} → Result A → Bool
is_ok (ok value) = true
is_ok (err message) = false
