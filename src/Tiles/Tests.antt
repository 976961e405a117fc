-- ===== src/Tiles/Tests.antt =====
-- The tiling at concrete inputs.
use nplg_dspace_mcp.Prelude.{◌≡◌, refl, true, [], ◌∷◌, List, arith, ok, pos, int, All}
use nplg_dspace_mcp.Tiles.{
  TileBox, is_integer, is_negative, value, checked_layout, tile_layout, range, tile_box, tile_rows,
  tile_boxes,
}
use nplg_dspace_mcp.Tiles.Cover.{any, contains, IsOnPage, tile_boxes-cover}

abbrev two_boxes : List TileBox
two_boxes =
    record { x = 0; y = 0; width = 4; height = 3 }
    ∷ record { x = 3; y = 0; width = 3; height = 3 }
    ∷ []

two_tiles :
    tile_boxes (int (pos 6)) (int (pos 3)) (int (pos 4)) (int (pos 4)) (int (pos 1)) ≡ ok two_boxes
unfolding tile_boxes tile_layout checked_layout is_integer is_negative value range tile_box
    tile_rows
two_tiles = refl

tile_boxes-cover_example : (any (contains 5 2) two_boxes ≡ true) × All (IsOnPage 6 3) two_boxes
unfolding value
tile_boxes-cover_example =
    tile_boxes-cover (int (pos 6)) (int (pos 3)) (int (pos 4)) (int (pos 4)) (int (pos 1)) two_boxes
      5 2 two_tiles (omega arith) (omega arith)
