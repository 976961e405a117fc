-- ===== src/Tiles/Count.antt =====
-- The number of tiles that `_tile_layout` announces is the number of boxes that `tile_boxes` returns.
use native.Mathlib.Nat.{div-eq_of_lt, div-eq-sub-div, mul-suc}
use nplg_dspace_mcp.Prelude.{
  ℕ, zero, suc, ◌+◌, ◌-◌, ◌*◌, ◌/◌, ◌≤◌, ◌<◌, ◌≡◌, ap, ap₂, sym, ◌∙◌, refl, List, [], ◌∷◌, map,
  arith, length, length-append, ok, Argument,
}
use nplg_dspace_mcp.Tiles.{
  TileBox, TileLayout, value, checked_layout, tile_layout, range, tile_box, tile_rows, tile_boxes,
}

range_empty :
    (fuel start stop stride : ℕ) → stop ≤ start → length (range fuel start stop stride) ≡ 0
unfolding range
range_empty zero start stop stride h = refl
range_empty (suc fuel) start stop stride h = ground arith

length-range :
    (fuel start stop stride : ℕ)
    → 0 < stride
    → start < stop
    → stop ≤ start + fuel
    → length (range fuel start stop stride) ≡ (stop - 1 - start) / stride + 1
unfolding range
length-range zero start stop stride p h enough = absurd (omega arith)
length-range (suc fuel) start stop stride p h enough = ground (
  arith,
  range_empty fuel (start + stride) stop stride,
  λ (more : start + stride < stop).
      length-range fuel (start + stride) stop stride p more (omega arith),
  λ (last : stop - 1 - start < stride). div-eq_of_lt last,
  λ (more : stride ≤ stop - 1 - start). div-eq-sub-div p more,
)

length-range_from :
    (stop stride : ℕ)
    → 0 < stride
    → 0 < stop
    → length (range stop 0 stop stride) ≡ (stop - 1) / stride + 1
length-range_from stop stride p h =
    let same : stop - 1 - 0 ≡ stop - 1 = omega arith in
    length-range stop 0 stop stride p h (omega arith) ∙ ap (λ n. n / stride + 1) same

length-map_box :
    (width height tile_width tile_height y : ℕ) (xs : List ℕ)
    → length (map (tile_box width height tile_width tile_height y) xs) ≡ length xs
length-map_box width height tile_width tile_height y [] = refl
length-map_box width height tile_width tile_height y (x ∷ xs) =
    ap suc (length-map_box width height tile_width tile_height y xs)

length-tile_rows :
    (width height tile_width tile_height : ℕ) (xs ys : List ℕ)
    → length (tile_rows width height tile_width tile_height xs ys) ≡ length xs * length ys
unfolding tile_rows
length-tile_rows width height tile_width tile_height xs [] = ground arith
length-tile_rows width height tile_width tile_height xs (y ∷ ys) = omega (
  arith,
  mul-suc (length xs) (length ys),
  length-append (map (tile_box width height tile_width tile_height y) xs)
      (tile_rows width height tile_width tile_height xs ys),
  length-map_box width height tile_width tile_height y xs,
  length-tile_rows width height tile_width tile_height xs ys,
)

-- What the checks of a layout leave.
layout-facts :
    (width height tile_width tile_height overlap : Argument) (layout : TileLayout)
    → tile_layout width height tile_width tile_height overlap ≡ ok layout
    → (0 < value width)
      × (0 < value height)
      × (0 < layout.stride_x)
      × (0 < layout.stride_y)
      × (layout.count
          ≡ ((value width - 1) / layout.stride_x + 1) * ((value height - 1) / layout.stride_y + 1))
unfolding tile_layout checked_layout
layout-facts width height tw th overlap layout e = ground (arith, e)

-- When a layout is checked, its count is that of the boxes from its strides.
layout-count :
    (width height tile_width tile_height overlap : Argument) (layout : TileLayout)
    → tile_layout width height tile_width tile_height overlap ≡ ok layout
    → length (range (value width) 0 (value width) layout.stride_x)
        * length (range (value height) 0 (value height) layout.stride_y)
      ≡ layout.count
layout-count width height tw th overlap layout e =
    let (w, h, sx, sy, count) = layout-facts width height tw th overlap layout e in
    let columns = length-range_from (value width) layout.stride_x sx w in
    let rows = length-range_from (value height) layout.stride_y sy h in
    ap₂ (λ a b. a * b) columns rows ∙ sym count

-- When the tiling of a page succeeds, it has as many boxes as the layout of the page counts.
length-tile_boxes :
    (width height tile_width tile_height overlap : Argument) (layout : TileLayout)
    (boxes : List TileBox)
    → tile_layout width height tile_width tile_height overlap ≡ ok layout
    → tile_boxes width height tile_width tile_height overlap ≡ ok boxes
    → length boxes ≡ layout.count
unfolding tile_boxes
length-tile_boxes width height tw th overlap layout boxes e done =
    let counted = layout-count width height tw th overlap layout e in
    let rows =
      length-tile_rows (value width) (value height) (value tw) (value th)
        (range (value width) 0 (value width) layout.stride_x)
        (range (value height) 0 (value height) layout.stride_y) in
    ground (arith, e, done, rows, counted)
