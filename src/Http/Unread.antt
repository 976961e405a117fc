-- ===== src/Http/Unread.antt =====
-- What a request without credentials can reach.
use nplg_dspace_mcp.Prelude.{ℕ, ◌≡◌, refl, Bool, true, false, List, Option, none, ok, err, Result}
use nplg_dspace_mcp.Prelude.Bytes.{Bytes}
use nplg_dspace_mcp.Http.Credentials.{authenticated_principal}
use nplg_dspace_mcp.Http.Body.{Event}
use nplg_dspace_mcp.Http.Security.{
  Settings, Request, Refusal, host_or_origin, unsupported_encoding, unauthenticated, ◌>>◌, check,
  check_authority, security_call,
}

-- The refusals that come before the authentication or from it.
abbrev pub IsEarly : Refusal → Type 0
IsEarly host_or_origin = Unit
IsEarly unsupported_encoding = Unit
IsEarly unauthenticated = Unit
IsEarly _ = ⊥

module _ (ip_address : Bytes → Option (ℕ × Bytes)) (finite : List ℕ → Bool) (settings : Settings)
    (r : Request) where
  abbrev RefusesEarly : Result Refusal (Unit {0}) → Type 0
  RefusesEarly (ok t) = ⊥
  RefusesEarly (err e) = IsEarly e

  early_of :
      (allowed encoded : Bool)
      → RefusesEarly (
          check allowed host_or_origin
          >> (check encoded unsupported_encoding >> check false unauthenticated))
  early_of true true = tt
  early_of true false = tt
  early_of false encoded = tt

  check_authority-RefusesEarly :
      authenticated_principal settings.credentials r.headers ≡ none
      → RefusesEarly (check_authority ip_address finite settings r)
  unfolding check_authority
  check_authority-RefusesEarly h = rw h (early_of _ _)

  refused_by :
      (m : Result Refusal (Unit {0}))
      → RefusesEarly m
      → (refusal : Refusal) × IsEarly refusal × (m ≡ err refusal)
  refused_by (ok t) h = absurd h
  refused_by (err e) h = (e, h, refl)

  -- A request whose headers authenticate nobody is refused in the same way whatever events follow, for its Host or
  -- Origin, its content encoding or its missing credentials.
  pub unauthenticated-unread :
      authenticated_principal settings.credentials r.headers ≡ none
      → (refusal : Refusal) × IsEarly refusal
        × ((events : List Event) → security_call ip_address finite settings r events ≡ err refusal)
  unfolding security_call
  unauthenticated-unread h =
      let (e, early, refused) =
        refused_by (check_authority ip_address finite settings r)
          (check_authority-RefusesEarly h) in
      (e, early, λ events. rw refused)
