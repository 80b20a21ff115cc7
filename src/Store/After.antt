-- ===== src/Store/After.antt =====
-- What holds after a transaction that commits, and the rules by which a proof walks through one.
use electro_mart_backend.Prelude.{if◌then◌else◌, ◌≡◌, Bool, true, false, Option, none, some, refl}
use mathlib.Core.Path.{subst, ap, sym, ◌∙◌}
use electro_mart_backend.Result.{Error, Result, ok, err}
use electro_mart_backend.Store.Monad.{guard, Store, M, next, lift, or_throw}

-- Of a transaction that is rolled back nothing is said: the state is the one before it.
pub data After {A : Type 0} (r : Result (A × Store)) (P : A → Store → Type 0) : Type 0 where
  commits : (a : A) (s : Store) → r ≡ ok (a, s) → P a s → After r P
  rolls_back : (e : Error) → r ≡ err e → After r P

-- A step, and the rest of the block from what holds after the step.
pub next-After :
    {A B : Type 0} {r : Result (A × Store)} {f : A → M B} {P : A → Store → Type 0}
    {Q : B → Store → Type 0}
    → After r P
    → ((a : A) (s : Store) → P a s → After (f a s) Q)
    → After (next r f) Q
next-After (commits a s e p) k = rw e (k a s p)
next-After (rolls_back x e) k = rolls_back x (rw e)

pub guard-After :
    {B : Type 0} (c : Bool) (e : Error) (s : Store) (f : Unit {0} → M B) {Q : B → Store → Type 0}
    → (c ≡ true → After (f tt s) Q)
    → After (next (guard c e s) f) Q
unfolding guard
guard-After true e s f k = k refl
guard-After false e s f k = rolls_back e refl

pub lift-After :
    {A B : Type 0} (r : Result A) (s : Store) (f : A → M B) {Q : B → Store → Type 0}
    → ((a : A) → r ≡ ok a → After (f a s) Q)
    → After (next (lift r s) f) Q
unfolding lift
lift-After (ok a) s f k = k a refl
lift-After (err e) s f k = rolls_back e refl

pub or_throw-After :
    {A B : Type 0} (o : Option A) (e : Error) (s : Store) (f : A → M B) {Q : B → Store → Type 0}
    → ((a : A) → o ≡ some a → After (f a s) Q)
    → After (next (or_throw o e s) f) Q
unfolding or_throw
or_throw-After (some a) e s f k = k a refl
or_throw-After none e s f k = rolls_back e refl

-- A step that reads and checks, and writes nothing.
pub data Reads {A : Type 0} (r : Result (A × Store)) (s : Store) (P : A → Type 0) : Type 0 where
  passes : (a : A) → r ≡ ok (a, s) → P a → Reads r s P
  fails : (e : Error) → r ≡ err e → Reads r s P

pub read-After :
    {A B : Type 0} {r : Result (A × Store)} {s : Store} (f : A → M B) {P : A → Type 0}
    {Q : B → Store → Type 0}
    → Reads r s P
    → ((a : A) → P a → After (f a s) Q)
    → After (next r f) Q
read-After {s = s} f (passes a e p) k = rw e (k a p)
read-After f (fails x e) k = rolls_back x (rw e)

pub Reads-After :
    {A : Type 0} {r : Result (A × Store)} {s : Store} {P : A → Type 0} {Q : A → Store → Type 0}
    → Reads r s P
    → ((a : A) → P a → Q a s)
    → After r Q
Reads-After {s = s} (passes a e p) k = commits a s e (k a p)
Reads-After (fails x e) k = rolls_back x e

pub Reads-mono :
    {A : Type 0} {r : Result (A × Store)} {s : Store} {P Q : A → Type 0}
    → ((a : A) → P a → Q a)
    → Reads r s P
    → Reads r s Q
Reads-mono k (passes a e p) = passes a e (k a p)
Reads-mono k (fails x e) = fails x e

-- A reading step, and a reading rest of the block.
pub next-Reads :
    {A B : Type 0} {r : Result (A × Store)} {s : Store} (f : A → M B) {P : A → Type 0}
    {Q : B → Type 0}
    → Reads r s P
    → ((a : A) → P a → Reads (f a s) s Q)
    → Reads (next r f) s Q
next-Reads {s = s} f (passes a e p) k = rw e (k a p)
next-Reads f (fails x e) k = fails x (rw e)

pub or_throw-Reads :
    {A : Type 0} (o : Option A) (e : Error) (s : Store) → Reads (or_throw o e s) s (λ a. o ≡ some a)
unfolding or_throw
or_throw-Reads none e s = fails e refl
or_throw-Reads (some a) e s = passes a refl refl

pub guard-Reads : (c : Bool) (e : Error) (s : Store) → Reads (guard c e s) s (λ _. c ≡ true)
unfolding guard
guard-Reads true e s = passes tt refl refl
guard-Reads false e s = fails e refl

pub After-mono :
    {A : Type 0} {r : Result (A × Store)} {P Q : A → Store → Type 0}
    → ((a : A) (s : Store) → P a s → Q a s)
    → After r P
    → After r Q
After-mono k (commits a s e p) = commits a s e (k a s p)
After-mono k (rolls_back x e) = rolls_back x e

abbrev payload : {A : Type 0} → A → Store → Result (A × Store) → A × Store
payload b t (ok x) = x
payload b t (err _) = (b, t)

payload-eq :
    {A : Type 0} (b : A) (t : Store) {a : A} {s : Store}
    → ◌≡◌ {A = Result (A × Store)} (ok (b, t)) (ok (a, s))
    → ◌≡◌ {A = A × Store} (b, t) (a, s)
payload-eq b t e = ap (payload b t) e

-- What is known of the state of a transaction that commits.
pub After-ok :
    {A : Type 0} {r : Result (A × Store)} {P : A → Store → Type 0} {a : A} {s : Store}
    → After r P
    → r ≡ ok (a, s)
    → P a s
After-ok {P = P} (commits b t e p) h = subst (λ x. P x.0 x.1) (payload-eq b t (sym e ∙ h)) p
After-ok (rolls_back x e) h = cc

-- Two things that hold after one transaction.
pub both-After :
    {A : Type 0} {r : Result (A × Store)} {P Q : A → Store → Type 0}
    → After r P
    → After r Q
    → After r (λ a s. P a s × Q a s)
both-After {P = P} {Q = Q} (commits a s e p) q = commits a s e (p, After-ok q e)
both-After (rolls_back x e) q = rolls_back x e

-- A finished block.
pub done : {A : Type 0} {a : A} {s : Store} {P : A → Store → Type 0} → P a s → After (ok (a, s)) P
done {a = a} {s = s} p = commits a s refl p

-- A conditional step, by what either branch does.
pub if_After :
    {A : Type 0} {P : A → Store → Type 0} (c : Bool) (m n : M A) (s : Store)
    → (c ≡ true → After (m s) P)
    → (c ≡ false → After (n s) P)
    → After ((if c then m else n) s) P
if_After true m n s p q = p refl
if_After false m n s p q = q refl
