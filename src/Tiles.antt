-- ===== src/Tiles.antt =====
-- src/nplg_mcp/pdf.py, `_tile_layout` and `tile_boxes`: the crop boxes that cover a page's pixels.
pub mod Cover
pub mod Count
mod Tests
use nplg_dspace_mcp.Prelude.{
  ℕ, zero, suc, ◌+◌, ◌-◌, ◌*◌, ◌/◌, min, Bool, true, false, not, ◌&&◌, ◌||◌, List, [], ◌∷◌, ◌++◌,
  map, ltb, leb, if◌then◌else◌, Result, ok, err, Argument, int, other, pos, negsuc,
}

pub data TileError : Type 0 where
  not_integers not_positive dimension_too_large overlap_too_large overlap_not_smaller : TileError

-- `TileBox`
pub record TileBox : Type 0 where
  pub x : ℕ
  pub y : ℕ
  pub width : ℕ
  pub height : ℕ

-- config.py
abbrev pub hard_max_tile_dimension : ℕ
hard_max_tile_dimension = 4096

abbrev pub hard_max_tile_overlap : ℕ
hard_max_tile_overlap = 512

-- the test `type(value) is int`, of a bool false
unfoldable pub is_integer : Argument → Bool
is_integer (int n) = true
is_integer other = false

unfoldable pub is_negative : Argument → Bool
is_negative (int (negsuc n)) = true
is_negative _ = false

-- an integer's value, where it is not negative
unfoldable pub value : Argument → ℕ
value (int (pos n)) = n
value _ = 0

-- The strides and the number of tiles.
pub record TileLayout : Type 0 where
  pub stride_x : ℕ
  pub stride_y : ℕ
  pub count : ℕ

unfoldable pub checked_layout : ℕ → ℕ → ℕ → ℕ → ℕ → Result TileError TileLayout
checked_layout width height tile_width tile_height overlap =
    if ltb hard_max_tile_dimension tile_width || ltb hard_max_tile_dimension tile_height
    then err dimension_too_large
    else if ltb hard_max_tile_overlap overlap
    then err overlap_too_large
    else if leb tile_width overlap || leb tile_height overlap
    then err overlap_not_smaller
    else ok (record {
      stride_x = tile_width - overlap;
      stride_y = tile_height - overlap;
      count =
          ((width - 1) / (tile_width - overlap) + 1) * ((height - 1) / (tile_height - overlap) + 1);
    })

-- `_tile_layout`; a value that is negative reads 0, which is not positive
unfoldable pub tile_layout :
    Argument → Argument → Argument → Argument → Argument → Result TileError TileLayout
tile_layout width height tile_width tile_height overlap =
    if not (
      is_integer width
      && (is_integer height
          && (is_integer tile_width && (is_integer tile_height && is_integer overlap))))
    then err not_integers
    else if leb (value width) 0
        || (leb (value height) 0
            || (leb (value tile_width) 0 || (leb (value tile_height) 0 || is_negative overlap)))
    then err not_positive
    else checked_layout (value width) (value height) (value tile_width) (value tile_height)
        (value overlap)

-- `range(start, stop, stride)`; a positive stride makes `stop` rounds enough
unfoldable pub range : ℕ → ℕ → ℕ → ℕ → List ℕ
range zero start stop stride = []
range (suc fuel) start stop stride =
    let rest = range fuel (start + stride) stop stride in
    if ltb start stop then start ∷ rest else []

unfoldable pub tile_box : ℕ → ℕ → ℕ → ℕ → ℕ → ℕ → TileBox
tile_box width height tile_width tile_height y x = record {
  x = x;
  y = y;
  width = min tile_width (width - x);
  height = min tile_height (height - y);
}

unfoldable pub tile_rows : ℕ → ℕ → ℕ → ℕ → List ℕ → List ℕ → List TileBox
tile_rows width height tile_width tile_height xs [] = []
tile_rows width height tile_width tile_height xs (y ∷ ys) =
    map (tile_box width height tile_width tile_height y) xs
    ++ tile_rows width height tile_width tile_height xs ys

-- `tile_boxes`, row by row
unfoldable pub tile_boxes :
    Argument → Argument → Argument → Argument → Argument → Result TileError (List TileBox)
tile_boxes width height tile_width tile_height overlap =
    elim (tile_layout width height tile_width tile_height overlap) [
      | err e ↦ err e
      | ok layout ↦ ok (
          tile_rows (value width) (value height) (value tile_width) (value tile_height)
            (range (value width) 0 (value width) layout.stride_x)
            (range (value height) 0 (value height) layout.stride_y))
    ]
