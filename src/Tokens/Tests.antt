-- ===== src/Tokens/Tests.antt =====
-- Tokens at concrete inputs, with a keyed hash and a codec for one payload in place of the library's, and the theorems
-- there.
use nplg_dspace_mcp.Prelude.{◌≡◌, ◌↔◌, refl, true, [], ◌∷◌, Option, none, some, ok, pos, int, arith}
use nplg_dspace_mcp.Prelude.Bytes.{Bytes, codes, bytes_eq, has_byte, split, starts_with, cut_at}
use nplg_dspace_mcp.Tokens.Base64.{
  letter, sextet, urlsafe_b64encode, rstrip, b64encode, last_group, strict_b64decode, padding,
  b64decode,
}
use nplg_dspace_mcp.Tokens.Halves.{is_ascii}
use nplg_dspace_mcp.Tokens.Assets.{
  Payload, AssetGrant, payload_of, sign_asset_token, verify_asset_token, claim, authenticate,
  validate_asset_claims,
}
use nplg_dspace_mcp.Tokens.Assets.Granted.{Signed, Claims, IsAlive, verify_asset_token-Signed}
use nplg_dspace_mcp.Tokens.Assets.Issued.{verify-sign}
use nplg_dspace_mcp.Tokens.Paths.{join, is_part, parts, as_posix, validate_path}
use nplg_dspace_mcp.Tokens.Paths.Canonical.{IsCanonical, validate_path_iff}

encoded : b64encode (codes "any?>") ≡ codes "YW55Pz4"
unfolding b64encode urlsafe_b64encode letter rstrip
encoded = refl

-- The standard alphabet is read too; a wrong length, a stray character or early padding is not.
decoded :
    (b64decode (codes "-_8") ≡ some (0xfb ∷ 0xff ∷ []))
    × (b64decode (codes "+/8") ≡ some (0xfb ∷ 0xff ∷ []))
    × (b64decode (codes "YWJjZ") ≡ none)
    × (b64decode (codes "YW!j") ≡ none)
    × (b64decode (codes "Y=Jj") ≡ none)
unfolding b64decode strict_b64decode sextet last_group padding
decoded = (refl, refl, refl, refl, refl)

paths :
    (validate_path (codes "a/b.png") ≡ some (codes "a/b.png"))
    × (validate_path (codes "a//b") ≡ none)
    × (validate_path (codes "a/../b") ≡ none)
    × (validate_path (codes "/a") ≡ none)
    × (validate_path (codes "a/.") ≡ none)
unfolding validate_path parts as_posix join is_part bytes_eq has_byte split starts_with
paths = (refl, refl, refl, refl, refl)

validate_path_iff_example :
    (validate_path (codes "a/b") ≡ some (codes "a/b"))
    ↔ ((codes "a/b" ≡ codes "a/b") × IsCanonical (codes "a/b"))
validate_path_iff_example = validate_path_iff (codes "a/b") (codes "a/b")

-- A grant until second 100, and the codec and the hash for it.
abbrev grant : AssetGrant
grant = record { path = codes "a/b"; media_type = codes "image/png"; expires_at = pos 100 }

abbrev digest : Bytes → Bytes → Bytes
digest secret message = secret

abbrev dumps : Payload → Bytes
dumps payload = codes "{}"

abbrev loads : Bytes → Option Payload
loads raw = some (payload_of grant)

clean : IsCanonical (codes "a/b")
unfolding has_byte split
clean = (refl, ((λ e. cc, λ e. cc, λ e. cc), ((λ e. cc, λ e. cc, λ e. cc), tt)))

verify-sign_example :
    (token : Bytes) × (sign_asset_token digest dumps (codes "k") true grant ≡ ok token)
    × (verify_asset_token digest loads (codes "k") (int (pos 60)) 50 token ≡ ok grant)
verify-sign_example =
    verify-sign digest loads dumps (codes "k") grant 50 60 100 refl (omega arith) (omega arith)
      clean refl (omega arith) (omega arith) (omega arith) (omega arith)

issued : verify_asset_token digest loads (codes "k") (int (pos 60)) 50 (codes "e30.aw") ≡ ok grant
unfolding verify_asset_token cut_at b64decode strict_b64decode sextet last_group padding is_ascii
    authenticate payload_of claim bytes_eq validate_asset_claims validate_path parts as_posix join
    is_part has_byte split starts_with
issued = refl

verify_asset_token-Signed_example :
    ((payload : Payload) × Signed digest loads (codes "k") (codes "e30.aw") payload
      × Claims payload grant)
    × IsCanonical grant.path
    × IsAlive digest loads (int (pos 60)) 50 grant.expires_at
verify_asset_token-Signed_example =
    verify_asset_token-Signed digest loads (codes "k") (codes "e30.aw") (int (pos 60)) 50 issued
