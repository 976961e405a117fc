-- ===== src/Tokens/Checks.antt =====
-- The checks of src/nplg_mcp/tokens.py that raise, as a monad, and what a chain of them that returns has passed.
use nplg_dspace_mcp.Prelude.{Bool, true, false, Option, none, some, Result, ok, err, ◌≡◌, refl}

infixl 5 ◌>>=◌ ◌>>◌
abbrev pub ◌>>=◌ {ℓ κ ι} :
    {E : Type ι} {A : Type ℓ} {B : Type κ} → Result E A → (A → Result E B) → Result E B
ok a >>= f = f a
err e >>= f = err e

abbrev pub ◌>>◌ {ℓ ι} : {E : Type ι} {B : Type ℓ} → Result E (Unit {0}) → Result E B → Result E B
m >> k = m >>= λ _. k

abbrev pub check {ι} : {E : Type ι} → Bool → E → Result E (Unit {0})
check true e = ok tt
check false e = err e

-- a value, or an error where there is none
abbrev pub present {ℓ ι} : {E : Type ι} {A : Type ℓ} → Option A → E → Result E A
present (some a) e = ok a
present none e = err e

pub check-ok :
    {E A : Type 0} (b : Bool) (e : E) (k : Result E A) {a : A}
    → (check b e >> k) ≡ ok a
    → (b ≡ true) × (k ≡ ok a)
check-ok true e k h = (refl, h)
check-ok false e k h = cc

pub >>=-ok :
    {E A B : Type 0} (m : Result E A) (f : A → Result E B) {b : B}
    → (m >>= f) ≡ ok b
    → (a : A) × (m ≡ ok a) × (f a ≡ ok b)
>>=-ok (ok a) f h = (a, refl, h)
>>=-ok (err e) f h = cc

pub ok-injective : {E A : Type 0} (a b : A) → (let r : Result E A = ok a in r ≡ ok b) → a ≡ b
ok-injective a b h = cc

pub present-ok : {E A : Type 0} (o : Option A) (e : E) {a : A} → present o e ≡ ok a → o ≡ some a
present-ok none e h = cc
present-ok (some a) e h = cc
