-- ===== src/Http/Admitted.antt =====
-- What holds of a request that reaches the application.
use Prim.Native.String.{String}
use nplg_dspace_mcp.Prelude.{
  ℕ, ◌≡◌, ◌≤◌, ◌⊎◌, inl, inr, refl, sym, ◌∙◌, Bool, true, false, not, ◌||◌, ◌==◌, List, [], ◌∷◌,
  Option, none, some, Option-cases, if◌then◌else◌, length, Bool-cases, ==_iff, Result, ok, err,
  arith,
}
use nplg_dspace_mcp.Prelude.Bytes.{Bytes, codes, bytes_eq, eq_of_bytes_eq}
use nplg_dspace_mcp.Http.Headers.{Header, values_named}
use nplg_dspace_mcp.Http.Host.{decimal, is_canonical_host}
use nplg_dspace_mcp.Http.Credentials.{authenticated_principal}
use nplg_dspace_mcp.Http.Authenticated.{CreditedBy, authenticated_principal_iff}
use nplg_dspace_mcp.Http.Body.{Event, BodyError, bounded_body, sent, judged, bounded_body-eq-judged}
use nplg_dspace_mcp.Http.Security.{
  Settings, Request, Refusal, Checked, ◌>>=◌, ◌>>◌, check, is_one_of, is_nil, is_none,
  declared_length, received, is_declared, body_limits, is_host, is_allowed, check_authority,
  check_headers, judged_json, check_body, security_call,
}
use nplg_dspace_mcp.Preflight.Limits
use nplg_dspace_mcp.Preflight.Limits.{Parsed}
use nplg_dspace_mcp.Preflight.Grammar.{Document}
use nplg_dspace_mcp.Preflight.Grammar.Sound.{validate-Document}
use nplg_dspace_mcp.Preflight.Parser.{validate, has_valid_root_request_id}

-- A check that lets a request pass, and a step before others.
check-ok :
    (b : Bool) (e : Refusal) {A : Type 0} (k : Checked A) {a : A}
    → (check b e >> k) ≡ ok a
    → (b ≡ true) × (k ≡ ok a)
check-ok true e k h = (refl, h)
check-ok false e k h = cc

>>=-ok :
    {A B : Type 0} (m : Checked A) (f : A → Checked B) {b : B}
    → (m >>= f) ≡ ok b
    → (a : A) × (m ≡ ok a) × (f a ≡ ok b)
>>=-ok (ok a) f h = (a, refl, h)
>>=-ok (err e) f h = cc

abbrev pub IsAmong : Bytes → List Bytes → Type 0
IsAmong value [] = ⊥
IsAmong value (v ∷ values) = (value ≡ v) ⊎ IsAmong value values

IsAmong-is_one_of :
    (value : Bytes) (values : List Bytes) → is_one_of values value ≡ true → IsAmong value values
IsAmong-is_one_of value [] h = cc
IsAmong-is_one_of value (v ∷ values) h = elim (Bool-cases (bytes_eq value v)) [
  | inl e ↦ inl (eq_of_bytes_eq value v e)
  | inr e ↦ inr (IsAmong-is_one_of value values (ground arith))
]

judged-sent :
    (limit : ℕ) (s : Bytes × Option (List Event)) {body : Bytes} {later : List Event}
    → judged limit s ≡ ok (body, later)
    → (s ≡ (body, some later)) × (length body ≤ limit)
unfolding judged
judged-sent limit (whole, none) h = ground arith
judged-sent limit (whole, some events) h = ground arith

declared_length-some :
    (limit : ℕ) (text : Bytes) (values : List Bytes) {declared : Option ℕ}
    → declared_length limit (text ∷ values) ≡ ok declared
    → declared ≡ some (decimal 0 text)
unfolding declared_length
declared_length-some limit text values h = ground arith

received-ok :
    (m : Result BodyError (Bytes × List Event)) {p : Bytes × List Event}
    → received m ≡ ok p
    → m ≡ ok p
unfolding received
received-ok (ok p) h = cc
received-ok (err e) h = cc

judged_json-ok :
    (m : Parsed Bool) {t : Unit {0}} → judged_json m ≡ ok t → (valid : Bool) × (m ≡ ok valid)
unfolding judged_json
judged_json-ok (ok valid) h = (valid, refl)
judged_json-ok (err e) h = cc

one_is_nil : {A : Type 0} (xs ys : List A) → (is_nil xs || is_nil ys) ≡ true → (xs ≡ []) ⊎ (ys ≡ [])
one_is_nil [] ys h = inl refl
one_is_nil (x ∷ xs) [] h = inr refl
one_is_nil (x ∷ xs) (y ∷ ys) h = cc

-- A parse that goes on has returned.
parsed_first :
    {A B : Type 0} (m : Parsed A) (f : A → Parsed B) {b : B}
    → Limits.◌>>=◌ m f ≡ ok b
    → (a : A) × (m ≡ ok a)
parsed_first (ok a) f h = (a, refl)
parsed_first (err e) f h = cc

module _ (ip_address : Bytes → Option (ℕ × Bytes)) (finite : List ℕ → Bool)
    (settings : Settings) where
  -- The hosts that the settings name, or behind a gateway the canonical ones.
  abbrev pub IsHost : Bool → Bytes → Type 0
  IsHost is_https host =
      (IsAmong host settings.allowed_hosts × (settings.gateway_authority ≡ false))
      ⊎ ((settings.gateway_authority ≡ true)
          × (is_canonical_host ip_address (if is_https then 443 else 80) host ≡ true))

  abbrev pub IsOrigin : List Bytes → Type 0
  IsOrigin [] = Unit
  IsOrigin (origin ∷ []) = IsAmong origin settings.allowed_origins
  IsOrigin _ = ⊥

  abbrev pub IsLength : List Bytes → Bytes → Type 0
  IsLength [] body = Unit
  IsLength (text ∷ _) body = decimal 0 text ≡ length body

  pub record Admits (r : Request) (events : List Event) (body : Bytes) (later : List Event)
      : Type 0 where
    pub host :
        (host : Bytes) × (values_named (codes "host") r.headers ≡ host ∷ [])
        × IsHost r.is_https host
    pub origin : IsOrigin (values_named (codes "origin") r.headers)
    pub principal : (id : String) × CreditedBy settings.credentials r.headers id
    pub post : r.method ≡ codes "POST"
    pub framing :
        (values_named (codes "content-length") r.headers ≡ [])
        ⊎ (values_named (codes "transfer-encoding") r.headers ≡ [])
    pub declared : IsLength (values_named (codes "content-length") r.headers) body
    pub whole : sent events ≡ (body, some later)
    pub bounded : length body ≤ settings.max_body_bytes
    pub document : Document body

  is_host-IsHost :
      (is_https : Bool) (host : Bytes)
      → is_host ip_address finite settings is_https host ≡ true
      → IsHost is_https host
  unfolding is_host
  is_host-IsHost is_https host h = elim (Bool-cases settings.gateway_authority) [
    | inl e ↦ inr (e, rw e at h)
    | inr e ↦ inl (IsAmong-is_one_of host settings.allowed_hosts (rw e at h), e)
  ]

  is_allowed-IsHost :
      (is_https : Bool) (hosts origins : List Bytes)
      → is_allowed ip_address finite settings is_https hosts origins ≡ true
      → ((host : Bytes) × (hosts ≡ host ∷ []) × IsHost is_https host) × IsOrigin origins
  unfolding is_allowed
  is_allowed-IsHost is_https (host ∷ []) [] h = ((host, refl, is_host-IsHost is_https host h), tt)
  is_allowed-IsHost is_https (host ∷ []) (origin ∷ []) h =
      elim (Bool-cases (is_host ip_address finite settings is_https host)) [
        | inl e ↦ (
          (host, refl, is_host-IsHost is_https host e),
          IsAmong-is_one_of origin settings.allowed_origins (rw e at h),
        )
        | inr e ↦ cc
      ]
  is_allowed-IsHost is_https (host ∷ []) (origin ∷ other ∷ origins) h = cc
  is_allowed-IsHost is_https [] origins h = cc
  is_allowed-IsHost is_https (host ∷ other ∷ hosts) origins h = cc

  principal_of :
      (headers : List Header)
      → not (is_none (authenticated_principal settings.credentials headers)) ≡ true
      → (id : String) × CreditedBy settings.credentials headers id
  principal_of headers h =
      elim (Option-cases (authenticated_principal settings.credentials headers)) [
        | inl e ↦ absurd (ground arith)
        | inr (id, e) ↦ (id, (authenticated_principal_iff settings.credentials headers id).0 e)
      ]

  declared_length-eq :
      (values : List Bytes) (body : Bytes) {declared : Option ℕ}
      → declared_length settings.max_body_bytes values ≡ ok declared
      → is_declared declared body ≡ true
      → IsLength values body
  unfolding declared_length is_declared
  declared_length-eq [] body e h = tt
  declared_length-eq (text ∷ values) body {declared} e h =
      let test : (decimal 0 text == length body) ≡ true =
        rw (declared_length-some settings.max_body_bytes text values e) at h in
      (==_iff (decimal 0 text) (length body)).0 test

  -- The body that is read whole, its size, and the JSON check of it.
  bounded_body-sent :
      (events : List Event) {body : Bytes} {later : List Event}
      → bounded_body settings.max_body_bytes [] events ≡ ok (body, later)
      → (sent events ≡ (body, some later)) × (length body ≤ settings.max_body_bytes)
  bounded_body-sent events h =
      judged-sent settings.max_body_bytes (sent events)
        (sym (bounded_body-eq-judged settings.max_body_bytes events) ∙ h)

  valid_id-Document :
      (body : Bytes) {valid : Bool}
      → has_valid_root_request_id finite (body_limits settings.max_body_bytes) body ≡ ok valid
      → Document body
  unfolding has_valid_root_request_id
  valid_id-Document body h =
      let (p, e) = parsed_first (validate finite (body_limits settings.max_body_bytes) body) _ h in
      validate-Document finite (body_limits settings.max_body_bytes) body e

  check_body-whole :
      (declared : Option ℕ) (values : List Bytes) (events : List Event) {body : Bytes}
      {later : List Event}
      → declared_length settings.max_body_bytes values ≡ ok declared
      → check_body ip_address finite settings declared events ≡ ok (body, later)
      → IsLength values body
        × (sent events ≡ (body, some later))
        × (length body ≤ settings.max_body_bytes)
        × Document body
  unfolding check_body
  check_body-whole declared values events {body} {later} d h =
      let (p, got, checked) =
        >>=-ok (received (bounded_body settings.max_body_bytes [] events)) _ h in
      let (matches, judged) = check-ok (is_declared declared p.0) _ _ checked in
      let (_, json, same) =
        >>=-ok
          (judged_json (has_valid_root_request_id finite (body_limits settings.max_body_bytes) p.0))
          _ judged in
      let body_eq : p.0 ≡ body = cc in
      let later_eq : p.1 ≡ later = cc in
      let read = bounded_body-sent events (received-ok _ got) in
      rw (← body_eq, ← later_eq)
        (
          declared_length-eq values p.0 d matches,
          read.0,
          read.1,
          valid_id-Document p.0 (judged_json-ok _ json).1,
        )

  check_authority-ok :
      (r : Request) {t : Unit {0}}
      → check_authority ip_address finite settings r ≡ ok t
      → (is_allowed ip_address finite settings r.is_https
            (values_named (codes "host") r.headers)
            (values_named (codes "origin") r.headers)
          ≡ true)
        × (not (is_none (authenticated_principal settings.credentials r.headers)) ≡ true)
  unfolding check_authority
  check_authority-ok r h = ground arith

  check_headers-ok :
      (r : Request) {declared : Option ℕ}
      → check_headers ip_address finite settings r ≡ ok declared
      → (bytes_eq r.method (codes "POST") ≡ true)
        × ((is_nil (values_named (codes "content-length") r.headers)
              || is_nil (values_named (codes "transfer-encoding") r.headers))
            ≡ true)
        × (declared_length settings.max_body_bytes (values_named (codes "content-length") r.headers)
            ≡ ok declared)
  unfolding check_headers
  check_headers-ok r h = ground arith

  -- Every request of /mcp that the checks hand to the application, for any settings and any events, has one Host
  -- header that the settings name, or that is canonical behind a gateway, and at most one Origin, which they name;
  -- its credentials prove an identity; it is a POST without both a Content-Length and a Transfer-Encoding; and the
  -- body handed over is all that was sent up to its last chunk, has the declared length, is within the limit and
  -- is one JSON text by the grammar.
  pub security_call-Admits :
      (r : Request) (events : List Event) {body : Bytes} {later : List Event}
      → security_call ip_address finite settings r events ≡ ok (body, later)
      → Admits r events body later
  unfolding security_call
  security_call-Admits r events h =
      let (_, authority, headers) = >>=-ok (check_authority ip_address finite settings r) _ h in
      let (declared, framed, read) =
        >>=-ok (check_headers ip_address finite settings r) _ headers in
      let (allowed, credited) = check_authority-ok r authority in
      let (host, origin) = is_allowed-IsHost r.is_https _ _ allowed in
      let (post, framing, length_ok) = check_headers-ok r framed in
      let (declares, whole, bounded, text) = check_body-whole declared _ events length_ok read in
      record {
        host = host;
        origin = origin;
        principal = principal_of r.headers credited;
        post = eq_of_bytes_eq _ _ post;
        framing = one_is_nil _ _ framing;
        declared = declares;
        whole = whole;
        bounded = bounded;
        document = text;
      }
