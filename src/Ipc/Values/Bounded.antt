-- ===== src/Ipc/Values/Bounded.antt =====
-- The walk over a JSON value against its size, depth and numbers.
use nplg_dspace_mcp.Prelude.{
  ℕ, zero, suc, ◌+◌, ◌≤◌, ◌<◌, ◌≡◌, ◌↔◌, refl, true, false, ◌||◌, ltb, [], ◌∷◌, Result, ok, err,
  arith, Bool-cases, inl, inr,
}
use nplg_dspace_mcp.Ipc.Values.{
  Json, Items, Members, scalar, real, list, object, nil, cons, end, member, IpcError, over_limit,
  not_finite, out_of_fuel, Stack, push_items, push_members, push_children, is_infinite, walk,
  check_structure,
}

-- How many values a value has, itself included.
mutual
  pub size : Json → ℕ
  size scalar = 1
  size (real is_finite) = 1
  size (list items) = suc (size_items items)
  size (object members) = suc (size_members members)

  pub size_items : Items → ℕ
  size_items nil = 0
  size_items (cons v vs) = size v + size_items vs

  pub size_members : Members → ℕ
  size_members end = 0
  size_members (member k v ms) = size v + size_members ms

-- Every value below a depth, and no number that is infinite or not a number: what stands at `depth` is within.
mutual
  pub Within : ℕ → ℕ → Json → Type 0
  Within deepest depth scalar = depth ≤ deepest
  Within deepest depth (real is_finite) = (depth ≤ deepest) × (is_finite ≡ true)
  Within deepest depth (list items) = (depth ≤ deepest) × WithinItems deepest (depth + 1) items
  Within deepest depth (object members) =
      (depth ≤ deepest) × WithinMembers deepest (depth + 1) members

  pub WithinItems : ℕ → ℕ → Items → Type 0
  WithinItems deepest depth nil = Unit
  WithinItems deepest depth (cons v vs) = Within deepest depth v × WithinItems deepest depth vs

  pub WithinMembers : ℕ → ℕ → Members → Type 0
  WithinMembers deepest depth end = Unit
  WithinMembers deepest depth (member k v ms) =
      Within deepest depth v × WithinMembers deepest depth ms

-- The values that a stack still holds.
abbrev load : Stack → ℕ
load [] = 0
load ((v, depth) ∷ stack) = size v + load stack

abbrev AllWithin : ℕ → Stack → Type 0
AllWithin deepest [] = Unit
AllWithin deepest ((v, depth) ∷ stack) = Within deepest depth v × AllWithin deepest stack

load-push_items :
    (vs : Items) (depth : ℕ) (stack : Stack)
    → load (push_items vs depth stack) ≡ size_items vs + load stack
unfolding push_items size_items
load-push_items nil depth stack = omega arith
load-push_items (cons v vs) depth stack =
    omega (arith, load-push_items vs depth ((v, depth) ∷ stack))

load-push_members :
    (ms : Members) (depth : ℕ) (stack : Stack)
    → load (push_members ms depth stack) ≡ size_members ms + load stack
unfolding push_members size_members
load-push_members end depth stack = omega arith
load-push_members (member k v ms) depth stack =
    omega (arith, load-push_members ms depth ((v, depth) ∷ stack))

load-push_children :
    (v : Json) (depth : ℕ) (stack : Stack)
    → suc (load (push_children v depth stack)) ≡ size v + load stack
unfolding push_children size
load-push_children scalar depth stack = omega arith
load-push_children (real is_finite) depth stack = omega arith
load-push_children (list items) depth stack = omega (arith, load-push_items items (depth + 1) stack)
load-push_children (object members) depth stack =
    omega (arith, load-push_members members (depth + 1) stack)

module _ (deepest : ℕ) where
  AllWithin-push_items :
      (vs : Items) (depth : ℕ) (stack : Stack)
      → AllWithin deepest (push_items vs depth stack)
        ↔ (WithinItems deepest depth vs × AllWithin deepest stack)
  unfolding push_items WithinItems
  AllWithin-push_items nil depth stack = (λ h. (tt, h), λ h. h.1)
  AllWithin-push_items (cons v vs) depth stack =
      let (there, back) = AllWithin-push_items vs depth ((v, depth) ∷ stack) in
      (
        λ h. let (items, (first, rest)) = there h in ((first, items), rest),
        λ h. back (h.0.1, (h.0.0, h.1)),
      )

  AllWithin-push_members :
      (ms : Members) (depth : ℕ) (stack : Stack)
      → AllWithin deepest (push_members ms depth stack)
        ↔ (WithinMembers deepest depth ms × AllWithin deepest stack)
  unfolding push_members WithinMembers
  AllWithin-push_members end depth stack = (λ h. (tt, h), λ h. h.1)
  AllWithin-push_members (member k v ms) depth stack =
      let (there, back) = AllWithin-push_members ms depth ((v, depth) ∷ stack) in
      (
        λ h. let (members, (first, rest)) = there h in ((first, members), rest),
        λ h. back (h.0.1, (h.0.0, h.1)),
      )

  AllWithin-push_children :
      (v : Json) (depth : ℕ) (stack : Stack)
      → depth ≤ deepest
      → is_infinite v ≡ false
      → AllWithin deepest (push_children v depth stack)
        ↔ (Within deepest depth v × AllWithin deepest stack)
  unfolding push_children Within
  AllWithin-push_children scalar depth stack d f = (λ h. (d, h), λ h. h.1)
  AllWithin-push_children (real true) depth stack d f = (λ h. ((d, refl), h), λ h. h.1)
  AllWithin-push_children (real false) depth stack d f = absurd (cc)
  AllWithin-push_children (list items) depth stack d f =
      let (there, back) = AllWithin-push_items items (depth + 1) stack in
      (λ h. ((d, (there h).0), (there h).1), λ h. back (h.0.1, h.1))
  AllWithin-push_children (object members) depth stack d f =
      let (there, back) = AllWithin-push_members members (depth + 1) stack in
      (λ h. ((d, (there h).0), (there h).1), λ h. back (h.0.1, h.1))

  Within-le : (v : Json) (depth : ℕ) → Within deepest depth v → depth ≤ deepest
  unfolding Within
  Within-le scalar depth h = h
  Within-le (real is_finite) depth h = h.0
  Within-le (list items) depth h = h.0
  Within-le (object members) depth h = h.0

  Within-finite : (v : Json) (depth : ℕ) → Within deepest depth v → is_infinite v ≡ false
  unfolding Within
  Within-finite scalar depth h = refl
  Within-finite (real true) depth h = refl
  Within-finite (real false) depth h = absurd (cc)
  Within-finite (list items) depth h = refl
  Within-finite (object members) depth h = refl

size_positive : (v : Json) → 0 < size v
unfolding size
size_positive scalar = omega arith
size_positive (real is_finite) = omega arith
size_positive (list items) = omega arith
size_positive (object members) = omega arith

-- A verdict on a statement: it holds, or it is refuted by an error of the walk.
abbrev pub Judges : Type 0 → Result IpcError (Unit {0}) → Type 0
Judges P (ok t) = P
Judges P (err over_limit) = ¬ P
Judges P (err not_finite) = ¬ P
Judges P (err _) = ⊥

Judges-iff :
    {P Q : Type 0} (r : Result IpcError (Unit {0})) → (P → Q) → (Q → P) → Judges P r → Judges Q r
Judges-iff (ok t) f g h = f h
Judges-iff (err over_limit) f g h = λ q. h (g q)
Judges-iff (err not_finite) f g h = λ q. h (g q)
Judges-iff (err IpcError.length_out_of_range) f g h = h
Judges-iff (err IpcError.byte_order_mark) f g h = h
Judges-iff (err IpcError.not_json) f g h = h
Judges-iff (err out_of_fuel) f g h = h

module _ (max_values max_depth : ℕ) where
  abbrev Fits : ℕ → Stack → Type 0
  Fits visited stack = (visited + load stack ≤ max_values) × AllWithin max_depth stack

  walk-Judges :
      (fuel visited : ℕ) (stack : Stack)
      → visited ≤ max_values
      → max_values + 2 ≤ visited + fuel
      → Judges (Fits visited stack) (walk max_values max_depth fuel visited stack)
  unfolding walk
  walk-Judges zero visited stack v f = absurd (omega arith)
  walk-Judges (suc fuel) visited [] v f = (omega arith, tt)
  walk-Judges (suc fuel) visited ((item, depth) ∷ stack) v f =
      elim (Bool-cases (ltb max_values (visited + 1) || ltb max_depth depth)) [
        | inl over ↦ rw over (λ fits.
            absurd
              (ground (arith, size_positive item, Within-le max_depth item depth fits.1.0, over)))
        | inr within ↦ elim (Bool-cases (is_infinite item)) [
          | inl infinite ↦
              rw (within, infinite)
                (λ fits. absurd (cc (Within-finite max_depth item depth fits.1.0)))
          | inr finite ↦
              let (there, back) =
                AllWithin-push_children max_depth item depth stack (ground (arith, within))
                  finite in
              let counts = load-push_children item depth stack in
              rw (within, finite)
                (Judges-iff
                  (walk max_values max_depth fuel (visited + 1) (push_children item depth stack))
                  (λ fits. (omega (arith, counts, fits.0), there fits.1))
                  (λ fits. (omega (arith, counts, fits.0), back fits.1))
                  (walk-Judges fuel (visited + 1) (push_children item depth stack)
                    (ground (arith, within)) (omega arith)))
        ]
      ]

  -- For any limits, the walk over a JSON value ends within its rounds and accepts the value exactly when it has at
  -- most the allowed number of values, none of them is nested too deep and every number is finite; otherwise it
  -- reports a limit or a number.
  pub check_structure-Judges :
      (v : Json)
      → Judges
          ((size v ≤ max_values) × Within max_depth 1 v)
          (check_structure max_values max_depth v)
  unfolding check_structure
  check_structure-Judges v =
      Judges-iff (walk max_values max_depth (suc (suc max_values)) 0 ((v, 1) ∷ []))
        (λ fits. (omega (arith, fits.0), fits.1.0)) (λ fits. (omega (arith, fits.0), (fits.1, tt)))
        (walk-Judges (suc (suc max_values)) 0 ((v, 1) ∷ []) (omega arith) (omega arith))
