-- ===== src/Preflight/Post.antt =====
-- What holds of the result of a parsing step that ends, with one rule for each way to build a step.
-- A step that runs out of fuel meets no postcondition.
use nplg_dspace_mcp.Prelude.{◌≡◌, ◌≢◌, refl, Bool, true, false, if◌then◌else◌, ok, err}
use nplg_dspace_mcp.Preflight.Limits.{Parsed, rejected, out_of_fuel, require, ◌>>=◌, ◌>>◌}

abbrev pub Post {ℓ} : {A : Type ℓ} → (A → Type 0) → Parsed A → Type 0
Post P (ok a) = P a
Post P (err rejected) = Unit
Post P (err out_of_fuel) = ⊥

module _ {ℓ κ} {A : Type ℓ} {B : Type κ} (P : A → Type 0) (Q : B → Type 0) where
  pub Post-bind :
      (m : Parsed A) (f : A → Parsed B)
      → Post P m
      → ((a : A) → P a → Post Q (f a))
      → Post Q (m >>= f)
  Post-bind (ok a) f h k = k a h
  Post-bind (err rejected) f h k = tt
  Post-bind (err out_of_fuel) f h k = absurd h

module _ {ℓ} {A : Type ℓ} (P : A → Type 0) where
  pub Post-require : (b : Bool) (m : Parsed A) → (b ≡ true → Post P m) → Post P (require b >> m)
  Post-require true m h = h refl
  Post-require false m h = tt

  pub Post-if :
      (b : Bool) (m n : Parsed A)
      → (b ≡ true → Post P m)
      → (b ≡ false → Post P n)
      → Post P (if b then m else n)
  Post-if true m n h k = h refl
  Post-if false m n h k = k refl

  pub Post-imp : (Q : A → Type 0) (m : Parsed A) → ((a : A) → P a → Q a) → Post P m → Post Q m
  Post-imp Q (ok a) f h = f a h
  Post-imp Q (err rejected) f h = tt
  Post-imp Q (err out_of_fuel) f h = absurd h

-- A result that meets a postcondition has not run out of fuel.
pub Post-ne-out_of_fuel {ℓ} :
    {A : Type ℓ} (P : A → Type 0) (m : Parsed A) → Post P m → m ≢ err out_of_fuel
Post-ne-out_of_fuel P (ok a) h e = cc
Post-ne-out_of_fuel P (err rejected) h e = cc
Post-ne-out_of_fuel P (err out_of_fuel) h e = h
