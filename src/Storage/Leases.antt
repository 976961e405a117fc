-- ===== src/Storage/Leases.antt =====
-- The leases of `ContentAddressedStore` in src/nplg_mcp/storage.py: readers of an object are counted, and a render
-- transaction that writes below it holds a token. Keys and tokens are numbers, as they are compared only; each method
-- runs under the store's lock.
pub mod Authority
mod Tests
use nplg_dspace_mcp.Prelude.{
  ℕ, ◌+◌, ◌-◌, ◌==◌, Bool, true, false, not, ◌&&◌, ◌||◌, Option, none, some, ltb, leb,
  if◌then◌else◌, Result, ok, err,
}

pub data LeaseError : Type 0 where
  render_in_use asset_missing reader_unbalanced transaction_unbalanced : LeaseError
  transaction_active authority_unavailable : LeaseError

-- `_asset_leases` and `_render_transaction_leases`, whose sets have one token each
pub record LeaseTable : Type 0 where
  pub readers : ℕ → Option ℕ
  pub writers : ℕ → Option ℕ

abbrev pub update : (ℕ → Option ℕ) → ℕ → Option ℕ → ℕ → Option ℕ
update f k v i = if i == k then v else f i

-- `.get(key, 0)`
abbrev pub count : Option ℕ → ℕ
count none = 0
count (some n) = n

-- whether a transaction's set is `{token}`
abbrev pub is_token : ℕ → Option ℕ → Bool
is_token token none = false
is_token token (some t) = t == token

-- `acquire_asset_lease`; the flag says whether the asset resolves to a file of the store
unfoldable pub acquire_asset_lease :
    ℕ → Bool → LeaseTable → Result LeaseError (Unit {0}) × LeaseTable
acquire_asset_lease key resolves s = elim (s.writers key) [
  | some t ↦ (err render_in_use, s)
  | none ↦
      if resolves
      then (ok tt, record s { readers = update s.readers key (some (count (s.readers key) + 1)) })
      else (err asset_missing, s)
]

-- `release_asset_lease` of a reader
unfoldable pub release_reader : ℕ → LeaseTable → Result LeaseError (Unit {0}) × LeaseTable
release_reader key s = elim (s.readers key) [
  | none ↦ (err reader_unbalanced, s)
  | some n ↦
      if leb n 0
      then (err reader_unbalanced, s)
      else if n == 1
      then (ok tt, record s { readers = update s.readers key none })
      else (ok tt, record s { readers = update s.readers key (some (n - 1)) })
]

-- `release_asset_lease` of a transaction
unfoldable pub release_transaction : ℕ → ℕ → LeaseTable → Result LeaseError (Unit {0}) × LeaseTable
release_transaction key token s =
    if is_token token (s.writers key)
    then (ok tt, record s { writers = update s.writers key none })
    else (err transaction_unbalanced, s)

-- `_register_render_transaction_locked`
unfoldable pub register_transaction : ℕ → ℕ → LeaseTable → Result LeaseError (Unit {0}) × LeaseTable
register_transaction key token s = elim (s.writers key) [
  | some t ↦ (err transaction_active, s)
  | none ↦ (ok tt, record s { writers = update s.writers key (some token) })
]

-- `_require_render_mutation_authority_locked`
unfoldable pub require_authority : ℕ → Option ℕ → LeaseTable → Result LeaseError (Unit {0})
require_authority key none s =
    if ltb 0 (count (s.readers key))
    then err render_in_use
    else elim (s.writers key) [ none ↦ ok tt | some t ↦ err render_in_use ]
require_authority key (some token) s =
    if ltb 0 (count (s.readers key))
    then err render_in_use
    else if is_token token (s.writers key)
    then ok tt
    else err authority_unavailable

-- the tokens of other transactions, in a guard of `_delete_render_subtree_locked`
abbrev pub is_foreign : Option ℕ → Option ℕ → Bool
is_foreign token none = false
is_foreign none (some t) = true
is_foreign (some token) (some t) = not (t == token)

-- a token that is not the transaction's
abbrev pub lacks : Option ℕ → Option ℕ → Bool
lacks none holder = false
lacks (some token) holder = not (is_token token holder)

-- the guards of `_delete_render_subtree_locked`
unfoldable pub authorize_delete : ℕ → Option ℕ → LeaseTable → Result LeaseError (Unit {0})
authorize_delete key token s =
    if lacks token (s.writers key)
    then err authority_unavailable
    else if ltb 0 (count (s.readers key)) || is_foreign token (s.writers key)
    then err render_in_use
    else ok tt
