-- ===== src/Common/Results.antt =====
-- Calls that may throw, as values. `undefined` is no exception of the source: it marks a step that
-- C++ leaves undefined, such as an access outside an array. `out_of_fuel` marks a loop whose model
-- was given too few rounds.
use mathlib.Core.Bool.{Bool, true, false}
use mathlib.Core.Path.{◌≡◌, refl}
use mathlib.Core.Logic.{◌≢◌}

pub data Error : Type 0 where
  internal_error logic_error input_error bencode_error undefined out_of_fuel : Error

-- What a call gives: its value, or the exception that it ends with.
pub data Result {ℓ} (Value : Type ℓ) : Type ℓ where
  ok : Value → Result Value
  err : Error → Result Value

-- `if (bad) throw e;`
abbrev pub throw_if : Bool → Error → Result (Unit {0})
throw_if true e = err e
throw_if false e = ok tt

infixl 5 ◌>>=◌ ◌>>◌
-- One call after another: an exception of the first is that of both.
abbrev pub ◌>>=◌ {a b} : {S : Type a} {T : Type b} → Result S → (S → Result T) → Result T
(err thrown) >>= next = err thrown
(ok value) >>= next = next value

abbrev pub map_ok {a b} : {S : Type a} {T : Type b} → (S → T) → Result S → Result T
map_ok f (ok value) = ok (f value)
map_ok f (err thrown) = err thrown

-- A call that gives nothing but may throw, and what comes after it.
abbrev pub ◌>>◌ {a} : {T : Type a} → Result (Unit {0}) → Result T → Result T
(err thrown) >> next = err thrown
(ok nothing) >> next = next

-- Two calls that succeed together: each of them does.
pub >>=-eq-ok {a b} :
    {S : Type a} {T : Type b} (first : Result S) (next : S → Result T) {t : T}
    → (first >>= next) ≡ ok t
    → (s : S) × (first ≡ ok s) × (next s ≡ ok t)
>>=-eq-ok (err thrown) next run = cc
>>=-eq-ok (ok value) next run = (value, refl, run)

-- Two calls of which neither fails with `x`.
pub >>=-ne-err {a b} :
    {S : Type a} {T : Type b} (first : Result S) (next : S → Result T) (x : Error)
    → first ≢ err x
    → ((s : S) → first ≡ ok s → next s ≢ err x)
    → (first >>= next) ≢ err x
>>=-ne-err (err thrown) next x never then_never = λ p. never (cc)
>>=-ne-err (ok value) next x never then_never = then_never value refl

pub >>=_assoc {a b c} :
    {S : Type a} {T : Type b} {U : Type c} (first : Result S) (next : S → Result T)
    (last : T → Result U)
    → ((first >>= next) >>= last) ≡ (first >>= (λ s. next s >>= last))
>>=_assoc (err thrown) next last = refl
>>=_assoc (ok value) next last = refl

pub >>=-ok {a} : {S : Type a} (first : Result S) → (first >>= ok) ≡ first
>>=-ok (err thrown) = refl
>>=-ok (ok value) = refl
