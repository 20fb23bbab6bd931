-- ===== src/Services/ColorSvc/Quota.antt =====
-- The quota of internal/colorsvc/colorsvc.go.
use wavelen.Prelude.{
  ℕ, ◌≤◌, Bytes, true, [], ◌∷◌, count, nat_eq, ==_iff, ◌≡◌, sym, subst, ap, inl, inr, arith,
  count-append,
}
use wavelen.Color.Hex.{is_hex}
use wavelen.Storage.Schema.{Tables, in_collection}
use wavelen.Storage.Actions.{World}
use wavelen.Storage.Promises.{Implements}
use wavelen.Storage.Colors.{color_row}
use wavelen.Services.ColorSvc.{add_color_to}
use wavelen.Services.ColorSvc.Refinement.{add_color_promise, add_color_to-Implements}

promised :
    (quota uid cid c : ℕ) (hex : Bytes) (w : World)
    → count (in_collection c) w.tables.colors ≤ quota
    → count (in_collection c) (add_color_promise quota uid cid hex w).1.colors ≤ quota
unfolding color_row count
promised quota uid cid c hex w h = ground (
  arith,
  count-append (in_collection c) w.tables.colors (color_row w cid hex ∷ []),
  ==_iff cid c,
  λ (e : cid ≡ c). ap (λ (k : ℕ). count (in_collection k) w.tables.colors) e,
)

-- Whatever fails, adding a normalized color leaves every collection that was within the quota
-- within it.
pub add_color_to-quota :
    (quota uid cid c : ℕ) (hex : Bytes) (w : World)
    → is_hex hex ≡ true
    → count (in_collection c) w.tables.colors ≤ quota
    → count (in_collection c) (add_color_to quota uid cid hex w).1.tables.colors ≤ quota
add_color_to-quota quota uid cid c hex w x h = kept (add_color_to-Implements quota uid cid hex w x)
  where
    kept :
        Implements (add_color_to quota uid cid hex) w (add_color_promise quota uid cid hex w)
        → count (in_collection c) (add_color_to quota uid cid hex w).1.tables.colors ≤ quota
    kept (inl (r, e)) =
        subst (λ (t : Tables). count (in_collection c) t.colors ≤ quota) (sym e)
          (promised quota uid cid c hex w h)
    kept (inr (r, e)) = subst (λ (t : Tables). count (in_collection c) t.colors ≤ quota) (sym e) h
