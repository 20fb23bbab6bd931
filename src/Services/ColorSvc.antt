-- ===== src/Services/ColorSvc.antt =====
-- internal/colorsvc/colorsvc.go
pub mod Refinement
pub mod Removal
pub mod Quota
pub mod Listing
pub mod Interleaving
pub mod Bags
use wavelen.Prelude.{ℕ, Bytes, Bool, true, false, not, leb, if◌then◌else◌}
use wavelen.Errors.{color_quota_full}
use wavelen.Storage.Actions.{M, pool, in_tx, pure, raise, ◌>>=◌, ◌>>◌}
use wavelen.Storage.Collections.{lock_collection, resolve_collection}
use wavelen.Storage.Colors.{
  ColorPage, add_color, count_colors, has_color, delete_color, delete_all_colors, list_colors,
}
use wavelen.Storage.Colors.Sorting.{ListColorsParams}

-- The branch of a full collection: a color that is there is no new one.
at_quota : ℕ → Bytes → M Bool
at_quota owned hex = do
  has ← has_color owned hex
  if not has then raise color_quota_full else pure false

-- The body of the transaction of `AddColor`.
unfoldable pub add_color_tx : ℕ → ℕ → ℕ → Bytes → M Bool
unfolding at_quota
add_color_tx quota uid cid hex = do
  owned ← lock_collection uid cid
  n ← count_colors owned
  if leb quota n then at_quota owned hex else add_color owned hex

-- `ColorSvc.AddColor`: whether the color was added.
unfoldable pub add_color_to : ℕ → ℕ → ℕ → Bytes → M Bool
unfolding add_color_tx
add_color_to quota uid cid hex = in_tx pool λ _. add_color_tx quota uid cid hex

-- `ColorSvc.DeleteColor`
unfoldable pub delete_color_from : ℕ → ℕ → Bytes → M (Unit {0})
delete_color_from uid cid hex = do owned ← resolve_collection uid cid; delete_color owned hex

-- `ColorSvc.DeleteAllColors`
unfoldable pub delete_all_colors_from : ℕ → ℕ → M (Unit {0})
delete_all_colors_from uid cid = do owned ← resolve_collection uid cid; delete_all_colors owned

-- `ColorSvc.ListColors`
unfoldable pub list_colors_of : ℕ → ℕ → ListColorsParams → M ColorPage
list_colors_of uid cid p = do owned ← resolve_collection uid cid; list_colors owned p
