-- ===== src/Common/Outcome.antt =====
-- `Result`: a value or an error.
use mathlib.Core.Path.{◌≡◌, refl}
use mathlib.Core.Option.{Option, none, some}

pub data Result (E A : Type 0) : Type 0 where
  err : E → Result E A
  ok : A → Result E A

-- `?` on a result, as the rest of a block after it.
infixl 5 ◌>>=◌ ◌>>◌
abbrev pub ◌>>=◌ : {E A B : Type 0} (m : Result E A) (next : A → Result E B) → Result E B
◌>>=◌ m next = elim m [ err why ↦ err why | ok value ↦ next value ]

abbrev pub ◌>>◌ : {E B : Type 0} (check : Result E (Unit {0})) (rest : Result E B) → Result E B
◌>>◌ check rest = elim check [ err why ↦ err why | ok _ ↦ rest ]

-- A block that succeeds has had its first step succeed.
pub >>=-eq-ok :
    {E A B : Type 0} (m : Result E A) (next : A → Result E B) {out : B}
    → (m >>= next) ≡ ok out
    → (value : A) × (m ≡ ok value) × (next value ≡ ok out)
>>=-eq-ok (err why) next q = cc
>>=-eq-ok (ok value) next q = (value, refl, q)

pub >>-eq-ok :
    {E B : Type 0} (check : Result E (Unit {0})) (rest : Result E B) {out : B}
    → (check >> rest) ≡ ok out
    → (check ≡ ok tt) × (rest ≡ ok out)
>>-eq-ok (err why) rest q = cc
>>-eq-ok (ok _) rest q = (refl, q)

-- `Option::ok_or`.
abbrev pub ok_or : {E A : Type 0} → Option A → E → Result E A
ok_or (some value) why = ok value
ok_or none why = err why
