-- ===== src/Tiles/Cover.antt =====
-- The tiles cover the page and stay on it.
use nplg_dspace_mcp.Prelude.{
  ℕ, zero, suc, ◌+◌, ◌-◌, ◌≤◌, ◌<◌, ◌≡◌, inl, inr, refl, subst, min, Bool, true, false, ◌&&◌, ◌||◌,
  List, [], ◌∷◌, ◌++◌, map, arith, ltb, leb, Result, ok, err, Argument, All, All-append, Bool-cases,
}
use nplg_dspace_mcp.Tiles.{
  TileError, TileBox, TileLayout, value, checked_layout, tile_layout, range, tile_box, tile_rows,
  tile_boxes,
}

-- Whether some element passes a test.
abbrev pub any : {A : Type 0} → (A → Bool) → List A → Bool
any p [] = false
any p (x ∷ xs) = p x || any p xs

-- Whether a pixel lies in a box.
unfoldable pub contains : ℕ → ℕ → TileBox → Bool
contains px py b = leb b.x px && (ltb px (b.x + b.width) && (leb b.y py && ltb py (b.y + b.height)))

-- The box is not empty and ends on the page.
abbrev pub IsOnPage : ℕ → ℕ → TileBox → Type 0
IsOnPage width height b =
    (0 < b.width) × (0 < b.height) × (b.x + b.width ≤ width) × (b.y + b.height ≤ height)

-- The start of a tile that holds a pixel of one axis.
abbrev pub spans : ℕ → ℕ → ℕ → ℕ → Bool
spans tile stop p x = leb x p && ltb p (x + min tile (stop - x))

any-append :
    {A : Type 0} (p : A → Bool) (xs ys : List A) → any p (xs ++ ys) ≡ (any p xs || any p ys)
any-append p [] ys = refl
any-append p (x ∷ xs) ys = ground (arith, any-append p xs ys)

range-spans :
    (fuel start stop stride tile p : ℕ)
    → 0 < stride
    → stride ≤ tile
    → start ≤ p
    → p < stop
    → stop ≤ start + fuel
    → any (spans tile stop p) (range fuel start stop stride) ≡ true
unfolding range
range-spans zero start stop stride tile p a b c d e = ground arith
range-spans (suc fuel) start stop stride tile p a b c d e =
    elim (Bool-cases (ltb p (start + stride))) [
      | inl here ↦ ground arith
      | inr later ↦ ground (
        arith,
        range-spans fuel (start + stride) stop stride tile p a b (ground arith) d (ground arith),
      )
    ]

range-bounded : (fuel start stop stride : ℕ) → All (λ x. x < stop) (range fuel start stop stride)
unfolding range
range-bounded zero start stop stride = tt
range-bounded (suc fuel) start stop stride = elim (Bool-cases (ltb start stop)) [
  | inl e ↦ rw e (ground arith, range-bounded fuel (start + stride) stop stride)
  | inr e ↦ rw e tt
]

any-row :
    (width height tile_width tile_height px py y : ℕ) (xs : List ℕ)
    → spans tile_height height py y ≡ true
    → any (spans tile_width width px) xs ≡ true
    → any (contains px py) (map (tile_box width height tile_width tile_height y) xs) ≡ true
unfolding contains tile_box
any-row width height tw th px py y [] v h = ground arith
any-row width height tw th px py y (x ∷ xs) v h =
    ground (arith, any-row width height tw th px py y xs)

any-rows :
    (width height tile_width tile_height px py : ℕ) (xs ys : List ℕ)
    → any (spans tile_width width px) xs ≡ true
    → any (spans tile_height height py) ys ≡ true
    → any (contains px py) (tile_rows width height tile_width tile_height xs ys) ≡ true
unfolding tile_rows
any-rows width height tw th px py xs [] h v = ground arith
any-rows width height tw th px py xs (y ∷ ys) h v = elim (Bool-cases (spans th height py y)) [
  | inl here ↦ ground (
    arith,
    any-row width height tw th px py y xs here h,
    any-append (contains px py) (map (tile_box width height tw th y) xs)
        (tile_rows width height tw th xs ys),
  )
  | inr later ↦ ground (
    arith,
    any-rows width height tw th px py xs ys h,
    any-append (contains px py) (map (tile_box width height tw th y) xs)
        (tile_rows width height tw th xs ys),
  )
]

All-row :
    (width height tile_width tile_height y : ℕ) (xs : List ℕ)
    → 0 < tile_width
    → 0 < tile_height
    → y < height
    → All (λ x. x < width) xs
    → All (IsOnPage width height) (map (tile_box width height tile_width tile_height y) xs)
unfolding tile_box
All-row width height tw th y [] a b v h = tt
All-row width height tw th y (x ∷ xs) a b v h = (
  (ground (arith, h.0), ground arith, ground (arith, h.0), ground arith),
  All-row width height tw th y xs a b v h.1,
)

All-rows :
    (width height tile_width tile_height : ℕ) (xs ys : List ℕ)
    → 0 < tile_width
    → 0 < tile_height
    → All (λ x. x < width) xs
    → All (λ y. y < height) ys
    → All (IsOnPage width height) (tile_rows width height tile_width tile_height xs ys)
unfolding tile_rows
All-rows width height tw th xs [] a b h v = tt
All-rows width height tw th xs (y ∷ ys) a b h v =
    All-append _ _ _ (All-row width height tw th y xs a b v.0 h)
      (All-rows width height tw th xs ys a b h v.1)

layout-strides :
    (width height tile_width tile_height overlap : Argument) (layout : TileLayout)
    → tile_layout width height tile_width tile_height overlap ≡ ok layout
    → (0 < layout.stride_x)
      × (layout.stride_x ≤ value tile_width)
      × (0 < layout.stride_y)
      × (layout.stride_y ≤ value tile_height)
unfolding tile_layout checked_layout
layout-strides width height tw th overlap layout e = ground arith

-- When the tiling of a page succeeds, every pixel of the page lies in some box, and every box is not empty and
-- ends on the page.
pub tile_boxes-cover :
    (width height tile_width tile_height overlap : Argument) (boxes : List TileBox) (px py : ℕ)
    → tile_boxes width height tile_width tile_height overlap ≡ ok boxes
    → px < value width
    → py < value height
    → (any (contains px py) boxes ≡ true) × All (IsOnPage (value width) (value height)) boxes
unfolding tile_boxes
tile_boxes-cover width height tw th overlap boxes px py e a b =
    go (tile_layout width height tw th overlap) refl e
  where
    go :
        (r : Result TileError TileLayout)
        → tile_layout width height tw th overlap ≡ r
        → (elim r as (λ _. Result TileError (List TileBox)) [
          | err e ↦ err e
          | ok layout ↦ ok (
              tile_rows
                (value width)
                (value height)
                (value tw)
                (value th)
                (range (value width) 0 (value width) layout.stride_x)
                (range (value height) 0 (value height) layout.stride_y))
        ])
          ≡ ok boxes
        → (any (contains px py) boxes ≡ true) × All (IsOnPage (value width) (value height)) boxes
    go (err x) f g = ground arith
    go (ok layout) f g =
        let (a1, a2, b1, b2) = layout-strides width height tw th overlap layout f in
        let xs = range (value width) 0 (value width) layout.stride_x in
        let ys = range (value height) 0 (value height) layout.stride_y in
        let made : tile_rows (value width) (value height) (value tw) (value th) xs ys ≡ boxes =
          cc in
        subst
          (λ bs. (any (contains px py) bs ≡ true) × All (IsOnPage (value width) (value height)) bs)
          made
          (
            any-rows (value width) (value height) (value tw) (value th) px py xs ys
                (range-spans (value width) 0 (value width) layout.stride_x (value tw) px a1 a2
                  (omega arith) a (omega arith))
                (range-spans (value height) 0 (value height) layout.stride_y (value th) py b1 b2
                  (omega arith) b (omega arith)),
            All-rows (value width) (value height) (value tw) (value th) xs ys
                (omega (arith, a1, a2)) (omega (arith, b1, b2))
                (range-bounded (value width) 0 (value width) layout.stride_x)
                (range-bounded (value height) 0 (value height) layout.stride_y),
          )
