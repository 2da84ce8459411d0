-- ===== src/Store/Tx/Laws.antt =====
-- One step of a transaction at a time.
use devrelay.Prelude.{◌≡◌, refl, Bool, true, false, arith, inl, inr, ◌⊎◌, ◌≢◌}
use devrelay.Store.Db.{Db}
use devrelay.Store.Tx.{Error, Result, ok, err, Tx, guard, ◌>>=◌}

pub bind_ok :
    {A B : Type 0} (m : Tx A) (f : A → Tx B) {db db' : Db} {a : A}
    → m db ≡ ok (a, db')
    → (m >>= f) db ≡ f a db'
bind_ok m f e = rw (e, ◌>>=◌) refl

pub guard_ok : {b : Bool} (e : Error) (db : Db) → b ≡ true → guard b e db ≡ ok (tt, db)
guard_ok {b = true} e db h = refl
guard_ok {b = false} e db h = ground arith

pub bind_err :
    {A B : Type 0} (m : Tx A) (f : A → Tx B) {db : Db} {e : Error}
    → m db ≡ err e
    → (m >>= f) db ≡ err e
bind_err m f e = rw (e, ◌>>=◌) refl

pub guard_err : {b : Bool} (e : Error) (db : Db) → b ≡ false → guard b e db ≡ err e
guard_err {b = true} e db h = ground arith
guard_err {b = false} e db h = refl

pub Result-cases :
    {A : Type 0} (r : Result A) → ((a : A) × (r ≡ ok a)) ⊎ ((e : Error) × (r ≡ err e))
Result-cases (ok a) = inl (a, refl)
Result-cases (err e) = inr (e, refl)

pub err-ne-ok : {A : Type 0} {e : Error} {a : A} → err e ≢ ok a
err-ne-ok h = ground arith

pub ok_injective : {A : Type 0} {a b : A} → ok a ≡ ok b → a ≡ b
ok_injective h = ground arith
