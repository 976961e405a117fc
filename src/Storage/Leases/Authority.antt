-- ===== src/Storage/Leases/Authority.antt =====
-- A render transaction that may write keeps that authority, alone, until it releases its token.
use nplg_dspace_mcp.Prelude.{
  ℕ, ◌<◌, ◌==◌, ◌≡◌, ◌≢◌, Bool, true, false, ◌&&◌, Option, none, some, arith, ap, ok, err, is_ok,
}
use nplg_dspace_mcp.Storage.Leases.{
  render_in_use, LeaseTable, count, acquire_asset_lease, release_reader, release_transaction,
  register_transaction, require_authority, authorize_delete, is_token,
}

-- One call of a run in which `token` is not released for `key`; a run may check authority at any time, which changes
-- nothing.
pub data Step (key token : ℕ) (s : LeaseTable) : LeaseTable → Type 0 where
  acquiring : (k : ℕ) (resolves : Bool) → Step key token s (acquire_asset_lease k resolves s).1
  ending : (k : ℕ) → Step key token s (release_reader k s).1
  registering : (k t : ℕ) → Step key token s (register_transaction k t s).1
  releasing :
      (k t : ℕ)
      → ((k == key) && (t == token)) ≡ false
      → Step key token s (release_transaction k t s).1

pub data Run (key token : ℕ) (s : LeaseTable) : LeaseTable → Type 0 where
  here : Run key token s s
  next : {t u : LeaseTable} → Run key token s t → Step key token t u → Run key token s u

abbrev Holds : ℕ → ℕ → LeaseTable → Type 0
Holds key token s = (count (s.readers key) ≡ 0) × (is_token token (s.writers key) ≡ true)

require_authority-Holds :
    (key token : ℕ) (s : LeaseTable)
    → require_authority key (some token) s ≡ ok tt
    → Holds key token s
unfolding require_authority
require_authority-Holds key token s e = ground (arith, e)

Step-Holds :
    {key token : ℕ} {s t : LeaseTable} → Step key token s t → Holds key token s → Holds key token t
unfolding acquire_asset_lease release_reader register_transaction release_transaction
Step-Holds {key} {token} {s} (acquiring k resolves) h = ground (arith, h)
Step-Holds {key} {token} {s} (ending k) h = ground (arith, h)
Step-Holds {key} {token} {s} (registering k t) h = ground (arith, h)
Step-Holds {key} {token} {s} (releasing k t other) h = ground (arith, h, other)

Run-Holds :
    {key token : ℕ} {s t : LeaseTable} → Run key token s t → Holds key token s → Holds key token t
Run-Holds here h = h
Run-Holds (next r st) h = Step-Holds st (Run-Holds r h)

-- Once a render transaction has the authority to write below an object, then until its token is released, whatever
-- other leases are asked for and released: it keeps that authority and may delete, no reader gets a lease of the
-- object, and no other token, nor a call without one, may write or delete there.
pub authority_exclusive :
    {key token : ℕ} {s t : LeaseTable} (resolves : Bool) (other : Option ℕ)
    → require_authority key (some token) s ≡ ok tt
    → Run key token s t
    → other ≢ some token
    → (require_authority key (some token) t ≡ ok tt)
      × (authorize_delete key (some token) t ≡ ok tt)
      × (acquire_asset_lease key resolves t ≡ (err render_in_use, t))
      × (is_ok (require_authority key other t) ≡ false)
      × (is_ok (authorize_delete key other t) ≡ false)
unfolding require_authority authorize_delete acquire_asset_lease
authority_exclusive {key} {token} {s} {t} resolves none granted run ne =
    let h = Run-Holds run (require_authority-Holds key token s granted) in ground (arith, h)
authority_exclusive {key} {token} {s} {t} resolves (some x) granted run ne =
    let h = Run-Holds run (require_authority-Holds key token s granted) in
    let differs : x ≢ token = λ e. ne (ap some e) in ground (arith, h, differs)

-- A lease for a reader of an object that no transaction holds is granted when the asset resolves, counts the
-- object as leased, and when it is released every object has as many readers as before.
acquire-release_reader :
    (key i : ℕ) (s : LeaseTable)
    → s.writers key ≡ none
    → let (granted, held) = acquire_asset_lease key true s in
      let (returned, free) = release_reader key held in
      (granted ≡ ok tt)
      × (0 < count (held.readers key))
      × (returned ≡ ok tt)
      × (count (free.readers i) ≡ count (s.readers i))
unfolding acquire_asset_lease release_reader
acquire-release_reader key i s e = ground (arith, e)
