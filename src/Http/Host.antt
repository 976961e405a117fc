-- ===== src/Http/Host.antt =====
-- `_canonical_host` of src/nplg_mcp/config.py, on the bytes of a header. `ip_address` of the standard library is a
-- parameter: the version and the canonical text of what it parses.
use nplg_dspace_mcp.Prelude.{
  ℕ, ◌+◌, ◌-◌, ◌*◌, Bool, true, false, not, ◌&&◌, ◌||◌, ◌==◌, leb, List, [], ◌∷◌, Option, none,
  some, if◌then◌else◌, length, any,
}
use nplg_dspace_mcp.Prelude.Bytes.{Bytes, codes, bytes_eq, between, has_byte, split, cut_at}

abbrev pub is_digit : ℕ → Bool
is_digit b = between b'0' b'9' b

abbrev pub all {ℓ} : {A : Type ℓ} → (A → Bool) → List A → Bool
all p [] = true
all p (x ∷ xs) = elim (p x) [ true ↦ all p xs | false ↦ false ]

-- `int(text)` of decimal digits
unfoldable pub decimal : ℕ → Bytes → ℕ
decimal n [] = n
decimal n (b ∷ s) = decimal (n * 10 + (b - b'0')) s

-- Not ASCII, upper case, a control character, a space or one of the markers that no host has.
unfoldable pub is_unsafe : ℕ → Bool
is_unsafe b =
    leb b b' ' || b == 0x7f || leb 0x80 b || between b'A' b'Z' b || has_byte b (codes "*%\\@/?#")

abbrev is_alphanumeric : ℕ → Bool
is_alphanumeric b = between b'a' b'z' b || is_digit b

-- the rest of a label, which ends in a letter or a digit
unfoldable pub ends_alphanumeric : ℕ → Bytes → Bool
ends_alphanumeric b [] = is_alphanumeric b
ends_alphanumeric b (c ∷ s) = (is_alphanumeric b || b == b'-') && ends_alphanumeric c s

-- `_DNS_LABEL.fullmatch`
unfoldable pub is_dns_label : Bytes → Bool
unfolding ends_alphanumeric
is_dns_label [] = false
is_dns_label (b ∷ s) = leb (length s) 62 && is_alphanumeric b && ends_alphanumeric b s

unfoldable pub has_leading_zero : Bytes → Bool
has_leading_zero [] = false
has_leading_zero (b ∷ []) = false
has_leading_zero (b ∷ c ∷ s) = b == b'0'

abbrev is_empty : Bytes → Bool
is_empty [] = true
is_empty (b ∷ s) = false

unfoldable pub is_port : ℕ → Bytes → Bool
unfolding has_leading_zero decimal
is_port default_port text =
    not (is_empty text)
    && all is_digit text
    && not (has_leading_zero text)
    && between 1 65_535 (decimal 0 text)
    && not (decimal 0 text == default_port)

module _ (ip_address : Bytes → Option (ℕ × Bytes)) where
  abbrev pub is_ip_literal : ℕ → Bytes → Bool
  is_ip_literal version host = elim (ip_address host) [
    | none ↦ false
    | some (v, text) ↦ (v == version) && bytes_eq text host
  ]

  -- the host of an authority without brackets
  unfoldable pub is_name : Bytes → Bool
  is_name host = elim (ip_address host) [
    | none ↦ all is_dns_label (split b'.' host)
    | some _ ↦ is_ip_literal 4 host
  ]

  -- what follows the bracket
  unfoldable pub is_port_suffix : ℕ → Bytes → Bool
  is_port_suffix default_port [] = true
  is_port_suffix default_port (b ∷ text) = (b == b':') && is_port default_port text

  unfoldable pub is_bracketed : ℕ → Bytes → Bool
  unfolding is_port_suffix
  is_bracketed default_port rest = elim (cut_at b']' rest) [
    | none ↦ false
    | some (host, suffix) ↦ is_ip_literal 6 host && is_port_suffix default_port suffix
  ]

  -- a second colon, which the port holds, is refused
  unfoldable pub is_named : ℕ → Bytes → Bool
  unfolding is_name
  is_named default_port value = elim (cut_at b':' value) [
    | none ↦ is_name value
    | some (host, port) ↦ not (has_byte b':' port) && is_name host && is_port default_port port
  ]

  unfoldable pub is_authority : ℕ → Bytes → Bool
  unfolding is_bracketed is_named
  is_authority default_port [] = false
  is_authority default_port (b ∷ value) =
      if b == b'[' then is_bracketed default_port value else is_named default_port (b ∷ value)

  -- `canonicalize_mcp_host` returns its argument or raises
  unfoldable pub is_canonical_host : ℕ → Bytes → Bool
  unfolding is_authority
  is_canonical_host default_port value =
      leb (length value) 253 && not (any is_unsafe value) && is_authority default_port value
