-- ===== src/Network/Resolution/Approved.antt =====
-- Which addresses a resolution returns.
use nplg_dspace_mcp.Prelude.{
  ◌≡◌, ◌≢◌, refl, ◌∙◌, sym, subst, Bool, true, false, List, [], ◌∷◌, ◌++◌, Option, none, some, any,
  Result, ok, err, Bool-cases, inl, inr, All, All-append, All-imp, ◌↔◌, arith,
}
use nplg_dspace_mcp.Prelude.Bytes.{Bytes, codes, bytes_eq, bytes_eq_refl, eq_of_bytes_eq, lower}
use nplg_dspace_mcp.Network.Resolution.Public.{IsPublicAddress, is_forbidden_address_iff}
use nplg_dspace_mcp.Network.Resolution.{
  Address, DnsError, malformed_address, forbidden_address, no_address, host_rejected, unresolved,
  is_forbidden_address, approve_each, require_addresses, resolve_approved_addresses,
}

abbrev pub IsIn : List Bytes → Bytes → Type 0
IsIn xs x = any (bytes_eq x) xs ≡ true

-- No text stands twice.
abbrev pub IsDistinct : List Bytes → Type 0
IsDistinct [] = Unit
IsDistinct (x ∷ xs) = (any (bytes_eq x) xs ≡ false) × IsDistinct xs

any-append_left : (x : Bytes) (xs ys : List Bytes) → IsIn xs x → IsIn (xs ++ ys) x
any-append_left x [] ys h = cc
any-append_left x (y ∷ xs) ys h = ground (arith, any-append_left x xs ys)

any-append_last : (x : Bytes) (xs : List Bytes) → IsIn (xs ++ x ∷ []) x
any-append_last x [] = ground (arith, bytes_eq_refl x)
any-append_last x (y ∷ xs) = ground (arith, any-append_last x xs)

any-append_other :
    (y x : Bytes) (xs : List Bytes)
    → any (bytes_eq y) xs ≡ false
    → bytes_eq y x ≡ false
    → any (bytes_eq y) (xs ++ x ∷ []) ≡ false
any-append_other y x [] h k = ground arith
any-append_other y x (z ∷ xs) h k = ground (arith, any-append_other y x xs)

bytes_eq_sym : (a b : Bytes) → bytes_eq b a ≡ false → bytes_eq a b ≡ false
bytes_eq_sym a b h = elim (Bool-cases (bytes_eq a b)) [
  | inl e ↦ cc (h, eq_of_bytes_eq a b e)
  | inr e ↦ e
]

IsDistinct-append :
    (xs : List Bytes) (x : Bytes)
    → IsDistinct xs
    → any (bytes_eq x) xs ≡ false
    → IsDistinct (xs ++ x ∷ [])
IsDistinct-append [] x h k = (refl, tt)
IsDistinct-append (y ∷ xs) x (fresh, h) k =
    let other : bytes_eq x y ≡ false = ground arith in
    let rest : any (bytes_eq x) xs ≡ false = ground arith in
    (any-append_other y x xs fresh (bytes_eq_sym y x other), IsDistinct-append xs x h rest)

ok-injective :
    (a b : List Bytes) → (let r : Result DnsError (List Bytes) = ok a in r ≡ ok b) → a ≡ b
ok-injective a b h = cc

err-ne_ok :
    (e : DnsError) (b : List Bytes) → (let r : Result DnsError (List Bytes) = err e in r ≢ ok b)
err-ne_ok e b h = cc

module _ (is_global : Address → Bool) (ip_address : Bytes → Option Address)
    (str : Address → Bytes) where
  -- An answer whose address is public, and is among the results.
  abbrev pub IsApproved : List Bytes → Bytes → Type 0
  IsApproved out raw =
      (a : Address) × (ip_address raw ≡ some a) × IsPublicAddress is_global a × IsIn out (str a)

  -- The text of an address that is public.
  abbrev pub IsPublic : Bytes → Type 0
  IsPublic x = (a : Address) × (x ≡ str a) × IsPublicAddress is_global a

  abbrev pub Approves : List Bytes → List Bytes → List Bytes → Type 0
  Approves answers addresses out =
      All (IsApproved out) answers
      × All IsPublic out
      × IsDistinct out
      × ((x : Bytes) → IsIn addresses x → IsIn out x)

  approve_each-Approves :
      (answers addresses : List Bytes) {out : List Bytes}
      → All IsPublic addresses
      → IsDistinct addresses
      → approve_each is_global ip_address str answers addresses ≡ ok out
      → Approves answers addresses out
  unfolding approve_each
  approve_each-Approves [] addresses p d h =
      subst (λ out. Approves [] addresses out) (ok-injective addresses _ h) (tt, p, d, λ x i. i)
  approve_each-Approves (raw ∷ answers) addresses {out} p d h =
      elim (ip_address raw) as (λ o. ip_address raw ≡ o → Approves (raw ∷ answers) addresses out) [
        | none ↦ λ e. absurd (err-ne_ok malformed_address out (rw (e, approve_each) at h))
        | some a ↦ λ e. elim (Bool-cases (is_forbidden_address is_global a)) [
          | inl f ↦ absurd (err-ne_ok forbidden_address out (rw (e, approve_each, f) at h))
          | inr f ↦ elim (Bool-cases (any (bytes_eq (str a)) addresses)) [
            | inl i ↦
                let (all, public, distinct, keeps) =
                  approve_each-Approves answers addresses p d (rw (e, approve_each, f, i) at h) in
                (
                  ((a, e, (is_forbidden_address_iff is_global a).0 f, keeps (str a) i), all),
                  public,
                  distinct,
                  keeps,
                )
            | inr i ↦
                let (all, public, distinct, keeps) =
                  approve_each-Approves answers (addresses ++ str a ∷ [])
                    (All-append IsPublic addresses (str a ∷ []) p
                      ((a, refl, (is_forbidden_address_iff is_global a).0 f), tt))
                    (IsDistinct-append addresses (str a) d i) (rw (e, approve_each, f, i) at h) in
                (
                  (
                    (
                      a,
                      e,
                      (is_forbidden_address_iff is_global a).0 f,
                      keeps (str a) (any-append_last (str a) addresses),
                    ),
                    all,
                  ),
                  public,
                  distinct,
                  λ x j. keeps x (any-append_left x addresses (str a ∷ []) j),
                )
          ]
        ]
      ]
        refl

  require-ok :
      (r : Result DnsError (List Bytes)) {out : List Bytes}
      → require_addresses is_global ip_address str r ≡ ok out
      → (r ≡ ok out) × (out ≢ [])
  unfolding require_addresses
  require-ok (ok []) {out} h = absurd (err-ne_ok no_address out h)
  require-ok (ok (x ∷ xs)) {out} h = (h, λ e. nonempty (ok-injective (x ∷ xs) out h ∙ e))
    where
      nonempty : (let xs' : List Bytes = x ∷ xs in xs' ≢ [])
      nonempty e = cc
  require-ok (err e) {out} h = absurd (err-ne_ok e out h)

  -- Every resolution that returns was of the host of the repository and had answers, each of which reads as a
  -- public address whose text is among the results; the results are not empty, are distinct and are all texts of
  -- public addresses. Public is an address that the registry calls global and that, if it is IPv6, has no scope
  -- and lies outside ::ffff:0:0/96 and fec0::/10.
  pub resolve_approved_addresses-Approves :
      (host : Bytes) (answers : Option (List Bytes)) {out : List Bytes}
      → resolve_approved_addresses is_global ip_address str host answers ≡ ok out
      → (lower host ≡ codes "dspace.nplg.gov.ge")
        × ((each : List Bytes) × (answers ≡ some each) × All (IsApproved out) each)
        × All IsPublic out
        × IsDistinct out
        × (out ≢ [])
  unfolding resolve_approved_addresses
  resolve_approved_addresses-Approves host answers {out} h =
      elim (Bool-cases (bytes_eq (lower host) (codes "dspace.nplg.gov.ge"))) [
        | inr e ↦ absurd (err-ne_ok host_rejected out (rw e at h))
        | inl e ↦
            resolved (eq_of_bytes_eq (lower host) (codes "dspace.nplg.gov.ge") e) answers
              (rw e at h)
      ]
    where
      resolved :
          lower host ≡ codes "dspace.nplg.gov.ge"
          → (answers : Option (List Bytes))
          → elim answers as (λ _. Result DnsError (List Bytes)) [
            | none ↦ err unresolved
            | some each ↦
                require_addresses is_global ip_address str
                  (approve_each is_global ip_address str each [])
          ]
            ≡ ok out
          → (lower host ≡ codes "dspace.nplg.gov.ge")
            × ((each : List Bytes) × (answers ≡ some each) × All (IsApproved out) each)
            × All IsPublic out
            × IsDistinct out
            × (out ≢ [])
      resolved e none k = absurd (err-ne_ok unresolved out k)
      resolved e (some each) k =
          let (returned, given) = require-ok (approve_each is_global ip_address str each []) k in
          let (all, public, distinct, _) = approve_each-Approves each [] tt tt returned in
          (e, (each, refl, all), public, distinct, given)

  -- An answer whose address is public.
  abbrev pub IsUsable : Bytes → Type 0
  IsUsable raw = (a : Address) × (ip_address raw ≡ some a) × IsPublicAddress is_global a

  approve_each-ok :
      (answers addresses : List Bytes)
      → All IsUsable answers
      → (out : List Bytes) × (approve_each is_global ip_address str answers addresses ≡ ok out)
  unfolding approve_each
  approve_each-ok [] addresses h = (addresses, refl)
  approve_each-ok (raw ∷ answers) addresses ((a, e, public), h) =
      let f = (is_forbidden_address_iff is_global a).1 public in
      elim (Bool-cases (any (bytes_eq (str a)) addresses)) [
        | inl i ↦
            let (out, r) = approve_each-ok answers addresses h in
            (out, rw (e, approve_each, f, i) r)
        | inr i ↦
            let (out, r) = approve_each-ok answers (addresses ++ str a ∷ []) h in
            (out, rw (e, approve_each, f, i) r)
      ]

  approved_given :
      (raw : Bytes) (answers out : List Bytes) → All (IsApproved out) (raw ∷ answers) → out ≢ []
  approved_given raw answers [] ((a, e, f, i), h) k = cc
  approved_given raw answers (x ∷ out) h k = cc

  require-given :
      (out : List Bytes) → out ≢ [] → require_addresses is_global ip_address str (ok out) ≡ ok out
  unfolding require_addresses
  require-given [] k = absurd (k refl)
  require-given (x ∷ xs) k = refl

  unanswered :
      (host : Bytes)
      → lower host ≡ codes "dspace.nplg.gov.ge"
      → resolve_approved_addresses is_global ip_address str host (some []) ≡ err no_address
  unfolding resolve_approved_addresses approve_each require_addresses
  unanswered host named = rw (named, bytes_eq_refl (codes "dspace.nplg.gov.ge"))

  -- A resolution returns addresses exactly when it is of the host of the repository, the resolver gives at least
  -- one answer, and every answer reads as a public address: one that the registry calls global and that, if it is
  -- IPv6, has no scope and lies outside ::ffff:0:0/96 and fec0::/10.
  pub resolve_approved_addresses_iff :
      (host : Bytes) (answers : Option (List Bytes))
      → ((out : List Bytes) × (resolve_approved_addresses is_global ip_address str host answers
            ≡ ok out))
        ↔ ((lower host ≡ codes "dspace.nplg.gov.ge")
            × ((raw : Bytes) × (each : List Bytes) × (answers ≡ some (raw ∷ each))
                × All IsUsable (raw ∷ each)))
  unfolding resolve_approved_addresses
  resolve_approved_addresses_iff host answers = (
    λ (out, h). usable h (resolve_approved_addresses-Approves host answers h),
    λ (named, (raw, each, e, all)). returns named raw each e all,
  )
    where
      usable :
          {out : List Bytes}
          → resolve_approved_addresses is_global ip_address str host answers ≡ ok out
          → (lower host ≡ codes "dspace.nplg.gov.ge")
            × ((each : List Bytes) × (answers ≡ some each) × All (IsApproved out) each)
            × All IsPublic out
            × IsDistinct out
            × (out ≢ [])
          → (lower host ≡ codes "dspace.nplg.gov.ge")
            × ((raw : Bytes) × (each : List Bytes) × (answers ≡ some (raw ∷ each))
                × All IsUsable (raw ∷ each))
      usable {out} h (named, ([], e, all), _, _, _) =
          absurd (err-ne_ok no_address out (sym (unanswered host named) ∙ (rw e at h)))
      usable {out} h (named, (raw ∷ each, e, all), _, _, _) = (
        named,
        (
          raw,
          each,
          e,
          All-imp (IsApproved out) IsUsable (raw ∷ each) (λ x (a, p, f, i). (a, p, f)) all,
        ),
      )

      returns :
          lower host ≡ codes "dspace.nplg.gov.ge"
          → (raw : Bytes) (each : List Bytes) → answers ≡ some (raw ∷ each)
          → All IsUsable (raw ∷ each)
          → (out : List Bytes) × (resolve_approved_addresses is_global ip_address str host answers
              ≡ ok out)
      returns named raw each e all =
          let (out, r) = approve_each-ok (raw ∷ each) [] all in
          let (approved, _, _, _) = approve_each-Approves (raw ∷ each) [] tt tt r in
          (
            out,
            rw (named, e)
                (rw (bytes_eq_refl (codes "dspace.nplg.gov.ge"))
                  (rw r (require-given out (approved_given raw each out approved)))),
          )
