-- ===== src/Slot/Lifetime.antt =====
-- The calls of any number of threads and tasks on one quota.
use Prim.Native.String.{String}
use text.Mathlib.TextEquality.{eq_iff}
use nplg_dspace_mcp.Prelude.{
  ◌≢◌, inl, inr, Bool-cases, List, [], ◌∷◌, ℕ, ◌≤◌, ◌<◌, ◌≡◌, ◌⊎◌, ◌==◌, ◌&&◌, ap, ◌∙◌, Bool, true,
  false, Option, none, some, arith, refl, ok, err, is_ok,
}
use nplg_dspace_mcp.Slot.Root.{
  Policy, Filesystem, validate_quota_bound_staging_root, has_option, has_options,
}
use nplg_dspace_mcp.Slot.{
  already_leased, issued, entered, Context, Active, Quota, Handle, lease_object, lease, enter,
  release, same_task, same_context, contains, is_active,
}

pub data Step (q : Quota) : Quota → Type 0 where
  leasing : (c : Context) (observed : Filesystem) → Step q (lease c observed q).1
  entering : (c : Context) (h : Handle) → Step q (enter c h q).1
  releasing : (c : Context) (h : Handle) → Step q (release c h q).1

pub data Reach (q : Quota) : Quota → Type 0 where
  here : Reach q q
  next : {r s : Quota} → Reach q r → Step r s → Reach q s

-- The leases that were released are of this quota, and the active one is, and is not one of them.
pub record IsSound (q : Quota) : Type 0 where
  pub made : (l : ℕ) → contains l q.released_leases ≡ true → l < q.made
  pub active :
      (l : ℕ) → is_active l q.active ≡ true → (l < q.made) × (contains l q.released_leases ≡ false)

Step-IsSound : {q r : Quota} → Step q r → IsSound q → IsSound r
unfolding lease enter release contains
Step-IsSound {q} (leasing c observed) v = record {
  made = λ l. ground (arith, v.made l);
  active = λ l. ground (arith, v.made l, v.active l);
}
Step-IsSound {q} (entering c h) v = record {
  made = λ l. ground (arith, v.made l);
  active = λ l. ground (arith, v.made l, v.active l);
}
Step-IsSound {q} (releasing c h) v = record {
  made = λ l. ground (arith, v.made l, v.active l);
  active = λ l. ground (arith, v.made l, v.active l);
}

pub Reach-IsSound : {q r : Quota} → Reach q r → IsSound q → IsSound r
Reach-IsSound here v = v
Reach-IsSound (next r st) v = Step-IsSound st (Reach-IsSound r v)

abbrev is_entered : ℕ → Option Active → Bool
is_entered l none = false
is_entered l (some a) = (a.lease == l) && elim a.state [ issued ↦ false | entered ↦ true ]

-- A lease that was entered: it is still, or it was released.
abbrev Spent : ℕ → Quota → Type 0
Spent l q = (contains l q.released_leases ≡ true) ⊎ (is_entered l q.active ≡ true)

Step-Spent : {q r : Quota} (l : ℕ) → Step q r → Spent l q → Spent l r
unfolding lease enter release contains
Step-Spent {q} l (leasing c observed) v = ground (arith, v)
Step-Spent {q} l (entering c h) v = ground (arith, v)
Step-Spent {q} l (releasing c h) v = ground (arith, v)

enter-Spent :
    (c : Context) (l : ℕ) (q : Quota)
    → (enter c (lease_object l) q).0 ≡ ok tt
    → Spent l (enter c (lease_object l) q).1
unfolding enter
enter-Spent c l q done = ground (arith, done)

Spent-refused :
    (c : Context) (l : ℕ) (q : Quota) → Spent l q → is_ok (enter c (lease_object l) q).0 ≡ false
unfolding enter
Spent-refused c l q v = ground (arith, v)

Reach-Spent : {q r : Quota} (l : ℕ) → Reach q r → Spent l q → Spent l r
Reach-Spent l here v = v
Reach-Spent l (next r st) v = Step-Spent l st (Reach-Spent l r v)

-- After a lease of the worker slot was entered, whatever calls follow, no thread or task enters it again.
enter_once :
    (q : Quota) {r : Quota} (c d : Context) (l : ℕ)
    → (enter c (lease_object l) q).0 ≡ ok tt
    → Reach (enter c (lease_object l) q).1 r
    → is_ok (enter d (lease_object l) r).0 ≡ false
enter_once q {r} c d l done reach =
    Spent-refused d l r (Reach-Spent l reach (enter-Spent c l q done))

-- Who makes a call.
abbrev caller : {q r : Quota} → Step q r → Context
caller (leasing c observed) = c
caller (entering c h) = c
caller (releasing c h) = c

-- Another thread, or another task.
abbrev pub IsOther : Context → Context → Type 0
IsOther c d = (c.thread ≢ d.thread) ⊎ (c.task ≢ d.task)

same_task-eq : (a b : Option ℕ) → same_task a b ≡ true → a ≡ b
same_task-eq none none h = refl
same_task-eq (some a) (some b) h = ground arith
same_task-eq none (some b) h = cc
same_task-eq (some a) none h = cc

same_context-IsOther : (c d : Context) → IsOther c d → same_context c d ≡ false
same_context-IsOther c d (inl other) = ground arith
same_context-IsOther c d (inr other) = elim (Bool-cases (same_task c.task d.task)) [
  | inl e ↦ absurd (other (same_task-eq c.task d.task e))
  | inr e ↦ ground arith
]

-- Calls of others than `c`.
pub data Foreign (c : Context) (q : Quota) : Quota → Type 0 where
  silent : Foreign c q q
  foreign : {r s : Quota} → Foreign c q r → (st : Step r s) → IsOther c (caller st) → Foreign c q s

Step-foreign :
    {q r : Quota} (a : Active) (st : Step q r)
    → q.active ≡ some a
    → same_context a.owner (caller st) ≡ false
    → r ≡ q
unfolding lease enter release
Step-foreign {q} a (leasing c observed) e other = ground (arith, e)
Step-foreign {q} a (entering c (lease_object l)) e other = ground (arith, e, other)
Step-foreign {q} a (entering c _) e other = refl
Step-foreign {q} a (releasing c (lease_object l)) e other = ground (arith, e, other)
Step-foreign {q} a (releasing c _) e other = refl

-- While a lease of the worker slot is active, calls from another thread or another task than those of its owner
-- change nothing, in any number and order, and each request for a lease, of the owner too, is refused.
pub Foreign-keeps :
    {q : Quota} (a : Active) (c : Context) (observed : Filesystem) {r : Quota}
    → q.active ≡ some a
    → Foreign a.owner q r
    → (r ≡ q) × (lease c observed r ≡ (err already_leased, r))
unfolding lease
Foreign-keeps {q} a c observed e silent = (refl, ground (arith, e))
Foreign-keeps {q} a c observed {r} e (foreign before st other) =
    let same = (Foreign-keeps a c observed e before).0 in
    let kept =
      Step-foreign a st (ap (λ x. x.active) same ∙ e)
        (same_context-IsOther a.owner (caller st) other)
      ∙ same in
    (kept, ground (arith, kept, e))

-- A text stands in a list.
abbrev pub Listed : String → List String → Type 0
Listed o [] = ⊥
Listed o (x ∷ xs) = (x ≡ o) ⊎ Listed o xs

has_option-Listed : (o : String) (xs : List String) → has_option o xs ≡ true → Listed o xs
unfolding has_option
has_option-Listed o [] h = cc
has_option-Listed o (x ∷ xs) h = ground (arith, eq_iff x o, has_option-Listed o xs)

-- The mounted file system is what the policy asks for.
pub record IsFit (policy : Policy) (observed : Filesystem) : Type 0 where
  pub filesystem_type : observed.filesystem_type ≡ policy.filesystem_type
  pub writable : Listed "rw" observed.mount_options
  pub no_devices : Listed "nodev" observed.mount_options
  pub no_setuid : Listed "nosuid" observed.mount_options
  pub no_programs : Listed "noexec" observed.mount_options
  pub total_bytes : observed.total_bytes ≡ policy.maximum_total_bytes
  pub available_bytes : policy.minimum_available_bytes ≤ observed.available_bytes
  pub total_inodes : observed.total_inodes ≡ policy.maximum_total_inodes
  pub available_inodes : policy.minimum_available_inodes ≤ observed.available_inodes

validate-IsFit :
    (policy : Policy) (observed : Filesystem) {t : Unit {0}}
    → validate_quota_bound_staging_root policy observed ≡ ok t
    → IsFit policy observed
unfolding validate_quota_bound_staging_root has_options
validate-IsFit policy observed h = record {
  filesystem_type = ground (arith, eq_iff observed.filesystem_type policy.filesystem_type);
  writable = ground (arith, has_option-Listed "rw" observed.mount_options);
  no_devices = ground (arith, has_option-Listed "nodev" observed.mount_options);
  no_setuid = ground (arith, has_option-Listed "nosuid" observed.mount_options);
  no_programs = ground (arith, has_option-Listed "noexec" observed.mount_options);
  total_bytes = ground arith;
  available_bytes = ground arith;
  total_inodes = ground arith;
  available_inodes = ground arith;
}

lease-valid :
    (c : Context) (observed : Filesystem) (q : Quota) (l : ℕ)
    → (lease c observed q).0 ≡ ok l
    → validate_quota_bound_staging_root q.policy observed ≡ ok tt
unfolding lease
lease-valid c observed q l done = ground arith

-- From a sound quota, a lease that is granted was not released before, none was active, its file system had the
-- type of the policy, the four mount options, exactly the bytes and inodes of the policy and the free bytes and
-- inodes that it asks for, and the thread and task that asked for it can enter it and then release it, which
-- leaves no lease active and records the release.
pub lease-cycle :
    (c : Context) (observed : Filesystem) (q : Quota) (l : ℕ)
    → IsSound q
    → (lease c observed q).0 ≡ ok l
    → let held = (lease c observed q).1 in
      let used = (enter c (lease_object l) held).1 in
      let left = (release c (lease_object l) used).1 in
      (contains l q.released_leases ≡ false)
      × (q.active ≡ none)
      × IsFit q.policy observed
      × ((enter c (lease_object l) held).0 ≡ ok tt)
      × ((release c (lease_object l) used).0 ≡ ok tt)
      × (left.active ≡ none)
      × (contains l left.released_leases ≡ true)
unfolding lease enter release contains
lease-cycle c observed q l v done =
    let fit = validate-IsFit q.policy observed (lease-valid c observed q l done) in
    ground (arith, v.made l, v.made q.made, done, fit)
