-- ===== src/Prelude/Outcome.antt =====
-- What a run of Go code gives: a value, a run-time panic, an `error` value, or, of a loop on fuel,
-- that the fuel did not reach its end.
use mathlib.Core.Path.{◌≡◌, refl, ap, ◌∙◌}
use mathlib.Core.Bool.{Bool, true, false}
use mathlib.Core.Option.{Option, none, some}

pub data Fault : Type 0 where
  nil_dereference out_of_range out_of_fuel : Fault
  api_error key_mismatch no_blocks not_found actor_not_found method_not_found database_error : Fault

-- The faults with which Go code panics or does not end; the others are `error` values.
abbrev pub is_panic : Fault → Bool
is_panic nil_dereference = true
is_panic out_of_range = true
is_panic out_of_fuel = true
is_panic api_error = false
is_panic key_mismatch = false
is_panic no_blocks = false
is_panic not_found = false
is_panic actor_not_found = false
is_panic method_not_found = false
is_panic database_error = false

pub data Result {ℓ} (A : Type ℓ) : Type ℓ where
  fail : Fault → Result A
  ok : A → Result A

abbrev pub is_ok {ℓ} : {A : Type ℓ} → Result A → Bool
is_ok (ok a) = true
is_ok (fail e) = false

-- A method called on a pointer: a nil pointer is a fault.
abbrev pub deref {ℓ} : {A : Type ℓ} → Option A → Result A
deref none = fail nil_dereference
deref (some a) = ok a

-- The run goes on only where there is no fault.
infixl 5 ◌>>=◌
abbrev pub ◌>>=◌ {κ μ} : {R : Type κ} {S : Type μ} → Result R → (R → Result S) → Result S
fail fault >>= next = fail fault
ok r >>= next = next r

-- A run that succeeds goes on with its value.
pub >>=-ok {κ μ} :
    {R : Type κ} {S : Type μ} {run : Result R} {r : R} {out : Result S} (next : R → Result S)
    → run ≡ ok r
    → next r ≡ out
    → (run >>= next) ≡ out
>>=-ok next h k = ap (λ x. x >>= next) h ∙ k

-- Inversion of a bind that succeeds.
pub >>=-eq-ok {κ μ} :
    {R : Type κ} {S : Type μ} (run : Result R) (next : R → Result S) {s : S}
    → (run >>= next) ≡ ok s
    → (r : R) × (run ≡ ok r) × (next r ≡ ok s)
>>=-eq-ok (fail fault) next succeeds = cc
>>=-eq-ok (ok r) next succeeds = (r, refl, succeeds)

pub ok-injective {ℓ} : {A : Type ℓ} {a b : A} → ok a ≡ ok b → a ≡ b
ok-injective h = cc

-- What a write leaves: the database, and the error where it failed; what was written before it stays.
pub data Written (D : Type 0) : Type 0 where
  done : D → Written D
  broken : D → Fault → Written D

-- The next write, unless there was an error.
infixl 5 ◌>>>◌
abbrev pub ◌>>>◌ : {D : Type 0} → Written D → (D → Written D) → Written D
done db >>> next = next db
broken db e >>> next = broken db e
