-- ===== src/Exec/Keeps.antt =====
-- What an action keeps: a predicate of the database that holds after it, returned or raised, if it
-- held before. One rule for each way to build an action.
use pqc_grade_a.Base.{
  arith, Bool, true, false, Option, none, some, List, [], ◌∷◌, ◌≡◌, refl, ap, ◌⊎◌, inl, inr,
  if◌then◌else◌,
}
use mathlib.Core.Path.{subst}
use pqc_grade_a.Errors.{Error}
use pqc_grade_a.Db.{Db}
use pqc_grade_a.Exec.{
  Action, Result, ok, err, pure, raise, ◌>>=◌, raise_if, or_raise, for_each, request,
}

-- An action returns one value and leaves one database.
pub returns_once :
    {A : Type 0} (r : Result A × Db) (a b : A) (db db' : Db)
    → r ≡ (ok a, db)
    → r ≡ (ok b, db')
    → (b ≡ a) × (db' ≡ db)
returns_once r a b db db' h k = ground arith

pub Result-cases :
    {A : Type 0} (r : Result A) → ((x : Error) × (r ≡ err x)) ⊎ ((a : A) × (r ≡ ok a))
Result-cases (ok a) = inr (a, refl)
Result-cases (err x) = inl (x, refl)

-- A request that raises leaves the database as it was.
pub request_failed :
    {A : Type 0} (m : Action A) (e : Error) (db db' : Db)
    → m db ≡ (err e, db')
    → request m db ≡ (err e, db)
unfolding request
request_failed m e db db' h = ground arith

-- What a call returns, if it returns, satisfies `P`.
abbrev pub Yields : {A : Type 0} → (A → Type 0) → Result A × Db → Type 0
Yields {A} P r = (a : A) → r.0 ≡ ok a → P a

pub Yields-pure : {A : Type 0} (P : A → Type 0) (a : A) (db : Db) → P a → Yields P (pure a db)
Yields-pure P a db h = λ b same. let e : a ≡ b = cc same in subst P e h

module _ {A B : Type 0} (P : B → Type 0) where
  Yields-cases :
      (f : A → Action B) (r : Result A × Db)
      → ((a : A) (db : Db) → Yields P (f a db))
      → Yields P (elim r.0 as (λ _. Result B × Db) [ ok a ↦ f a r.1 | err e ↦ (err e, r.1) ])
  Yields-cases f (ok a, db) k = k a db
  Yields-cases f (err e, db) k = λ b h. cc

  pub Yields-bind :
      (m : Action A) (f : A → Action B)
      → ((a : A) (db : Db) → Yields P (f a db))
      → (db : Db) → Yields P ((m >>= f) db)
  Yields-bind m f k db = Yields-cases f (m db) k

module _ {A B : Type 0} where
  bind_cases_ok :
      (f : A → Action B) (r : Result A × Db) (b : B) (db' : Db)
      → elim r.0 as (λ _. Result B × Db) [ ok a ↦ f a r.1 | err e ↦ (err e, r.1) ] ≡ (ok b, db')
      → (a : A) × (db1 : Db) × (r ≡ (ok a, db1)) × (f a db1 ≡ (ok b, db'))
  bind_cases_ok f (ok a, db) b db' h = (a, db, refl, h)
  bind_cases_ok f (err e, db) b db' h = cc (ap (λ r. r.0) h)

  -- Inversion of a chain that returned.
  pub >>=-eq-ok :
      (m : Action A) (f : A → Action B) (db : Db) {b : B} {db' : Db}
      → (m >>= f) db ≡ (ok b, db')
      → (a : A) × (db1 : Db) × (m db ≡ (ok a, db1)) × (f a db1 ≡ (ok b, db'))
  >>=-eq-ok m f db {b} {db'} h = bind_cases_ok f (m db) b db' h

pub or_raise-eq-ok :
    {A : Type 0} (o : Option A) (e : Error) (db : Db) {a : A} {db' : Db}
    → or_raise o e db ≡ (ok a, db')
    → (o ≡ some a) × (db ≡ db')
or_raise-eq-ok none e db h = cc (ap (λ r. r.0) h)
or_raise-eq-ok (some x) e db h = (ground arith, ap (λ r. r.1) h)

pub raise_if-eq-ok :
    (b : Bool) (e : Error) (db : Db) {a : Unit {0}} {db' : Db}
    → raise_if b e db ≡ (ok a, db')
    → (b ≡ false) × (db ≡ db')
raise_if-eq-ok true e db h = cc (ap (λ r. r.0) h)
raise_if-eq-ok false e db h = (refl, ap (λ r. r.1) h)

pub record Keeps {A : Type 0} (P : Db → Type 0) (m : Action A) : Type 0 where
  pub after : (db : Db) → P db → P (m db).1

request_cases :
    {A : Type 0} (P : Db → Type 0) (r : Result A × Db) (db : Db)
    → P db
    → P r.1
    → P (elim r.0 as (λ _. Result A × Db) [ ok a ↦ (ok a, r.1) | err e ↦ (err e, db) ]).1
request_cases P (ok a, db') db h h' = h'
request_cases P (err e, db') db h h' = h

module _ {A : Type 0} {P : Db → Type 0} where
  -- An action that leaves the database as it was.
  pub Keeps-read : (m : Action A) → ((db : Db) → (m db).1 ≡ db) → Keeps P m
  Keeps-read m same = record { after = λ db h. rw (same db) h }

  pub Keeps-pure : (a : A) → Keeps P (pure a)
  Keeps-pure a = record { after = λ db h. h }

  pub Keeps-raise : (e : Error) → Keeps P (raise {A = A} e)
  Keeps-raise e = record { after = λ db h. h }

  pub Keeps-or_raise : (o : Option A) (e : Error) → Keeps P (or_raise o e)
  Keeps-or_raise none e = Keeps-raise e
  Keeps-or_raise (some a) e = Keeps-pure a

  pub Keeps-if : (b : Bool) (m n : Action A) → Keeps P m → Keeps P n → Keeps P (if b then m else n)
  Keeps-if true m n hm hn = hm
  Keeps-if false m n hm hn = hn

  -- A rolled back request is as if it had not been made.
  pub Keeps-request : (m : Action A) → Keeps P m → Keeps P (request m)
  unfolding request
  Keeps-request m k = record { after = λ db h. request_cases P (m db) db h (k.after db h) }

pub Keeps-raise_if : {P : Db → Type 0} (b : Bool) (e : Error) → Keeps P (raise_if b e)
Keeps-raise_if b e = record { after = λ db h. h }

module _ {A B : Type 0} {P : Db → Type 0} where
  bind_cases :
      (f : A → Action B) (r : Result A × Db)
      → ((a : A) → r.0 ≡ ok a → Keeps P (f a))
      → P r.1
      → P (elim r.0 as (λ _. Result B × Db) [ ok a ↦ f a r.1 | err e ↦ (err e, r.1) ]).1
  bind_cases f (ok a, db) kf h = (kf a refl).after db h
  bind_cases f (err e, db) kf h = h

  pub Keeps-bind :
      (m : Action A) (f : A → Action B) → Keeps P m → ((a : A) → Keeps P (f a)) → Keeps P (m >>= f)
  Keeps-bind m f km kf = record {
    after = λ db h. bind_cases f (m db) (λ a _. kf a) (km.after db h);
  }

module _ {A : Type 0} {P : Db → Type 0} where
  pub Keeps-for_each :
      (xs : List A) (f : A → Action (Unit {0}))
      → ((x : A) → Keeps P (f x))
      → Keeps P (for_each xs f)
  Keeps-for_each [] f k = Keeps-pure tt
  Keeps-for_each (x ∷ xs) f k =
      Keeps-bind (f x) (λ _. for_each xs f) (k x) (λ _. Keeps-for_each xs f k)

pub ruleset keeps_rules =
    (Keeps-pure, Keeps-raise, Keeps-or_raise, Keeps-if, Keeps-raise_if, Keeps-bind, Keeps-for_each)
