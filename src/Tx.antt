-- ===== src/Tx.antt =====
-- A database transaction (`prisma.$transaction`): it reads and writes the tables, and throws. The
-- tables come back only if nothing was thrown, so that a throw rolls everything back.
use lucky_draw.Common.{◌≡◌, refl, ◌⊎◌, inl, inr, Bool, true, false, Option, none, some, arith}
use lucky_draw.Model.{Db, Error, Result, ok, err}

abbrev pub Tx : Type 0 → Type 0
Tx A = Db → Result (A × Db)

module _ {A : Type 0} where
  abbrev pub pure : A → Tx A
  pure a db = ok (a, db)

  abbrev pub throw : Error → Tx A
  throw e db = err e

  abbrev pub gets : (Db → A) → Tx A
  gets f db = ok (f db, db)

  -- `if (!x) throw e`
  abbrev pub or_throw : Option A → Error → Tx A
  or_throw none e db = err e
  or_throw (some a) e db = ok (a, db)

  -- A computation that throws and leaves the tables alone.
  abbrev pub lift : Result A → Tx A
  lift (ok a) db = ok (a, db)
  lift (err e) db = err e

abbrev pub modify : (Db → Db) → Tx (Unit {0})
modify f db = ok (tt, f db)

abbrev pub throw_if : Bool → Error → Tx (Unit {0})
throw_if true e db = err e
throw_if false e db = ok (tt, db)

infixl 5 ◌>>=◌ ◌>>◌
abbrev pub ◌>>=◌ : {A B : Type 0} → Tx A → (A → Tx B) → Tx B
◌>>=◌ m f db = elim (m db) [ ok (a, db') ↦ f a db' | err e ↦ err e ]

abbrev pub ◌>>◌ : {B : Type 0} → Tx (Unit {0}) → Tx B → Tx B
m >> k = m >>= λ _. k

pub Result-cases :
    {A : Type 0} (r : Result A) → ((a : A) × (r ≡ ok a)) ⊎ ((e : Error) × (r ≡ err e))
Result-cases (ok a) = inl (a, refl)
Result-cases (err e) = inr (e, refl)

-- What a transaction that succeeds went through.
pub >>=-eq-ok :
    {A B : Type 0} (m : Tx A) (f : A → Tx B) (db : Db) {b : B} {db' : Db}
    → (m >>= f) db ≡ ok (b, db')
    → (a : A) × (mid : Db) × (m db ≡ ok (a, mid)) × (f a mid ≡ ok (b, db'))
>>=-eq-ok m f db h = elim (Result-cases (m db)) [
  | inl ((a, mid), e) ↦ (a, mid, e, rw (e, ◌>>=◌) at h)
  | inr (x, e) ↦ ground arith
]

pub Result-err : {A : Type 0} (r : Result A) → ((a : A) → r ≡ ok a → ⊥) → (e : Error) × (r ≡ err e)
Result-err (ok a) h = absurd (h a refl)
Result-err (err e) h = (e, refl)
