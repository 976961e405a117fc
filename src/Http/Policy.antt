-- ===== src/Http/Policy.antt =====
-- What the response policy makes of every header.
use nplg_dspace_mcp.Prelude.{
  ◌≡◌, refl, sym, Bool, true, false, List, [], ◌∷◌, ◌++◌, if◌then◌else◌, filter, Bool-cases, inl,
  inr, arith,
}
use mathlib.Core.List.{append-nil}
use nplg_dspace_mcp.Prelude.Bytes.{
  Bytes, codes, bytes_eq, bytes_eq_refl, eq_of_bytes_eq, lower, starts_with,
}
use nplg_dspace_mcp.Http.Headers.{
  Header, values_named, response_policy, is_policy_name, access_control, accel_buffering, is_kept,
  is_sse, sse_headers, with_policy,
}

values_named-append :
    (n : Bytes) (hs ks : List Header)
    → values_named n (hs ++ ks) ≡ values_named n hs ++ values_named n ks
unfolding values_named
values_named-append n [] ks = refl
values_named-append n ((name, value) ∷ hs) ks = ground (arith, values_named-append n hs ks)

values_named-filter :
    (keep : Bytes → Bool) (n : Bytes) (hs : List Header)
    → values_named n (filter (λ h. keep (lower h.0)) hs)
      ≡ (if keep n then values_named n hs else [])
unfolding values_named
values_named-filter keep n [] = ground arith
values_named-filter keep n ((name, value) ∷ hs) = elim (Bool-cases (bytes_eq (lower name) n)) [
  | inl e ↦
      rw (sym (eq_of_bytes_eq (lower name) n e))
        (ground (arith, values_named-filter keep (lower name) hs, bytes_eq_refl (lower name)))
  | inr e ↦ ground (arith, values_named-filter keep n hs)
]

-- What stands for a name in a response: the policy's value, none for a CORS header, `no` buffering for an event
-- stream, and otherwise what stood before.
abbrev pub decided : Bytes → List Header → List Bytes
decided n headers =
    if is_policy_name n
    then values_named n response_policy
    else if starts_with access_control n
    then []
    else if bytes_eq accel_buffering n
    then (if is_sse headers then codes "no" ∷ [] else [])
    else values_named n headers

values_named-sse_headers :
    (n : Bytes) (b : Bool)
    → values_named n (sse_headers b)
      ≡ (if bytes_eq accel_buffering n then (if b then codes "no" ∷ [] else []) else [])
unfolding values_named sse_headers accel_buffering lower
values_named-sse_headers n true = ground arith
values_named-sse_headers n false = ground arith

-- The policy's list has no other names than its own.
values_named-response_policy :
    (n : Bytes) → is_policy_name n ≡ false → values_named n response_policy ≡ []
unfolding values_named response_policy is_policy_name lower
values_named-response_policy n h = ground arith

-- The three kinds of names that are replaced are apart.
accel_buffering_other :
    (n : Bytes)
    → bytes_eq accel_buffering n ≡ true
    → (is_policy_name n ≡ false) × (starts_with access_control n ≡ false)
accel_buffering_other n h =
    let e = eq_of_bytes_eq accel_buffering n h in
    rw (← e) (
      unfold is_policy_name response_policy access_control accel_buffering starts_with bytes_eq in
      (refl, refl))

-- For every header name, a response goes out with exactly the policy's value for a name of the policy, with no
-- value for a CORS header, with no buffering exactly for an event stream, and with the values that the application
-- gave for every other name.
pub with_policy-decides :
    (n : Bytes) (headers : List Header) → values_named n (with_policy headers) ≡ decided n headers
unfolding with_policy is_kept
with_policy-decides n headers = rw (values_named-append n) (
    rw (values_named-append n) (
      rw (values_named-filter is_kept n headers, values_named-sse_headers n (is_sse headers))
        (ground (
          arith,
          accel_buffering_other n,
          values_named-response_policy n,
          append-nil (values_named n headers),
          append-nil (values_named n response_policy),
        ))))
