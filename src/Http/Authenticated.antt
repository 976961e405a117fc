-- ===== src/Http/Authenticated.antt =====
-- Who is authenticated: a specification of `_authenticated_principal` that does not follow its loop.
use Prim.Native.String.{String}
use nplg_dspace_mcp.Prelude.{
  ◌≡◌, ◌⊎◌, inl, inr, refl, true, false, List, [], ◌∷◌, if◌then◌else◌, Option, none, some, arith,
  Bool-cases, sym,
}
use mathlib.Core.Option.{some-injective}
use nplg_dspace_mcp.Prelude.Bytes.{Bytes, codes, eq_of_bytes_eq, bytes_eq_refl}
use nplg_dspace_mcp.Http.Headers.{Header, values_named}
use nplg_dspace_mcp.Http.Credentials.{
  ApiPrincipal, Credentials, Scheme, authorization, x_api_key, secret_of, expected, is_presented,
  match_each, legacy_of, legacy_id, match_one, authenticate, authenticated_principal,
}

-- A secret of the scheme that belongs to an identity.
pub data Owns (scheme : Scheme) (secret : Bytes) (id : String) : List ApiPrincipal → Type 0 where
  first :
      (p : ApiPrincipal) (ps : List ApiPrincipal)
      → secret_of scheme p ≡ some secret
      → p.principal_id ≡ id
      → Owns scheme secret id (p ∷ ps)
  later :
      (p : ApiPrincipal) {ps : List ApiPrincipal}
      → Owns scheme secret id ps
      → Owns scheme secret id (p ∷ ps)

is_presented-secret :
    (scheme : Scheme) (presented : Bytes) (o : Option Bytes)
    → is_presented scheme presented o ≡ true
    → (secret : Bytes) × (o ≡ some secret) × (presented ≡ expected scheme secret)
unfolding is_presented
is_presented-secret scheme presented none h = cc
is_presented-secret scheme presented (some secret) h =
    (secret, refl, eq_of_bytes_eq presented (expected scheme secret) h)

-- What the loop answers was found in the list, or is what it began with.
match_each-Owns :
    (scheme : Scheme) (presented : Bytes) (ps : List ApiPrincipal) (before : Option String)
    {id : String}
    → match_each scheme presented ps before ≡ some id
    → ((secret : Bytes) × (presented ≡ expected scheme secret) × Owns scheme secret id ps)
      ⊎ (before ≡ some id)
unfolding match_each
match_each-Owns scheme presented [] before h = inr h
match_each-Owns scheme presented (p ∷ ps) before h =
    elim (Bool-cases (is_presented scheme presented (secret_of scheme p))) [
      | inl hit ↦ elim (match_each-Owns scheme presented ps (some p.principal_id) (rw hit at h)) [
        | inl (secret, e, owned) ↦ inl (secret, e, later p owned)
        | inr same ↦
            let (secret, held, e) = is_presented-secret scheme presented (secret_of scheme p) hit in
            inl (secret, e, first p ps held (some-injective _ _ same))
      ]
      | inr miss ↦ elim (match_each-Owns scheme presented ps before (rw miss at h)) [
        | inl (secret, e, owned) ↦ inl (secret, e, later p owned)
        | inr same ↦ inr same
      ]
    ]

-- A match is never lost, and an owned secret that is presented is matched.
match_each-some :
    (scheme : Scheme) (presented : Bytes) (ps : List ApiPrincipal) (id : String)
    → (id' : String) × (match_each scheme presented ps (some id) ≡ some id')
unfolding match_each
match_each-some scheme presented [] id = (id, refl)
match_each-some scheme presented (p ∷ ps) id =
    elim (is_presented scheme presented (secret_of scheme p))
      as (λ b.
        (id' : String) × (match_each scheme presented ps
            (if b then some p.principal_id else some id)
          ≡ some id')) [
            | true ↦ match_each-some scheme presented ps p.principal_id
            | false ↦ match_each-some scheme presented ps id
          ]

match_each-owned :
    (scheme : Scheme) (secret : Bytes) {id : String} (ps : List ApiPrincipal)
    (before : Option String)
    → Owns scheme secret id ps
    → (id' : String) × (match_each scheme (expected scheme secret) ps before ≡ some id')
unfolding match_each
match_each-owned scheme secret [] before owned = elim owned [ ]
match_each-owned scheme secret (p ∷ ps) before (first _ _ held same) = rw held (
    unfold is_presented in
    rw (bytes_eq_refl (expected scheme secret))
      (match_each-some scheme (expected scheme secret) ps p.principal_id))
match_each-owned scheme secret (p ∷ ps) before (later _ owned) =
    match_each-owned scheme secret ps
      (if is_presented scheme (expected scheme secret) (secret_of scheme p)
        then some p.principal_id
        else before)
      owned

-- The identity that one presented value proves.
abbrev pub Proves : Credentials → Scheme → Bytes → String → Type 0
Proves c scheme presented id =
    (secret : Bytes) × (presented ≡ expected scheme secret)
    × (Owns scheme secret id c.api_principals
        ⊎ ((legacy_of scheme c ≡ some secret) × (id ≡ legacy_id scheme)))

match_one-Proves :
    (c : Credentials) (scheme : Scheme) (presented : Bytes) {id : String}
    → match_one c scheme presented ≡ some id
    → Proves c scheme presented id
unfolding match_one
match_one-Proves c scheme presented h =
    elim (Bool-cases (is_presented scheme presented (legacy_of scheme c))) [
      | inl hit ↦
          let (secret, held, e) = is_presented-secret scheme presented (legacy_of scheme c) hit in
          (secret, e, inr (held, sym (some-injective _ _ (rw hit at h))))
      | inr miss ↦ elim (match_each-Owns scheme presented c.api_principals none (rw miss at h)) [
        | inl (secret, e, owned) ↦ (secret, e, inl owned)
        | inr never ↦ cc
      ]
    ]

match_one-some :
    (c : Credentials) (scheme : Scheme) (presented : Bytes) {id : String}
    → Proves c scheme presented id
    → (id' : String) × (match_one c scheme presented ≡ some id')
unfolding match_one
match_one-some c scheme presented (secret, e, inr (held, _)) =
    rw (e, held)
      (unfold is_presented in rw (bytes_eq_refl (expected scheme secret)) (legacy_id scheme, refl))
match_one-some c scheme presented (secret, e, inl owned) =
    rw e (elim (Bool-cases (is_presented scheme (expected scheme secret) (legacy_of scheme c))) [
      | inl hit ↦ rw hit (legacy_id scheme, refl)
      | inr miss ↦ rw miss (match_each-owned scheme secret c.api_principals none owned)
    ])

-- What the two headers of a request prove: nothing is presented where that is allowed, or one value of one scheme.
abbrev pub Credited : Credentials → List Bytes → List Bytes → String → Type 0
Credited c [] [] id = (c.allow_anonymous ≡ true) × (id ≡ "anonymous")
Credited c (presented ∷ []) [] id = Proves c authorization presented id
Credited c [] (presented ∷ []) id = Proves c x_api_key presented id
Credited c _ _ id = ⊥

abbrev pub CreditedBy : Credentials → List Header → String → Type 0
CreditedBy c headers =
    Credited c (values_named (codes "authorization") headers)
      (values_named (codes "x-api-key") headers)

authenticate-Credited :
    (c : Credentials) (bearers keys : List Bytes) {id : String}
    → authenticate c bearers keys ≡ some id
    → Credited c bearers keys id
unfolding authenticate
authenticate-Credited c [] [] h = ground arith
authenticate-Credited c (v ∷ []) [] h = match_one-Proves c authorization v h
authenticate-Credited c [] (v ∷ []) h = match_one-Proves c x_api_key v h
authenticate-Credited c (v ∷ []) (w ∷ keys) h = cc
authenticate-Credited c (v ∷ u ∷ bearers) keys h = cc
authenticate-Credited c [] (v ∷ u ∷ keys) h = cc

authenticate-some :
    (c : Credentials) (bearers keys : List Bytes) (id : String)
    → Credited c bearers keys id
    → (id' : String) × (authenticate c bearers keys ≡ some id')
unfolding authenticate
authenticate-some c [] [] id h = ("anonymous", rw h.0)
authenticate-some c (v ∷ []) [] id h = match_one-some c authorization v h
authenticate-some c [] (v ∷ []) id h = match_one-some c x_api_key v h
authenticate-some c (v ∷ []) (w ∷ keys) id h = absurd h
authenticate-some c (v ∷ u ∷ bearers) keys id h = absurd h
authenticate-some c [] (v ∷ u ∷ keys) id h = absurd h

-- A request is given an identity only if it presents nothing and anonymous access is allowed, or if it presents
-- one value in one of the two headers that is the secret of that principal, or the legacy secret, in its scheme;
-- and every request of which this holds for some identity is given such an identity.
pub authenticated_principal_iff :
    (c : Credentials) (headers : List Header) (id : String)
    → (authenticated_principal c headers ≡ some id → CreditedBy c headers id)
      × (CreditedBy c headers id
          → (id' : String) × (authenticated_principal c headers ≡ some id')
            × CreditedBy c headers id')
unfolding authenticated_principal
authenticated_principal_iff c headers id =
    let bearers = values_named (codes "authorization") headers in
    let keys = values_named (codes "x-api-key") headers in
    (
      authenticate-Credited c bearers keys,
      λ h.
          let (id', e) = authenticate-some c bearers keys id h in
          (id', e, authenticate-Credited c bearers keys e),
    )
