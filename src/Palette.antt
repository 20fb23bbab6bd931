-- ===== src/Palette.antt =====
-- internal/palette/palette.go: the CSS named colors in their orders.
pub mod Orders
use wavelen.Prelude.{
  String, ℕ, Bytes, codes, Bool, List, [], ◌∷◌, ◌++◌, map, ◌||◌, ◌==◌, bytes_eq, if◌then◌else◌,
  Result, ok, err,
}
use wavelen.Errors.{Error, invalid_sort}
use wavelen.Storage.Order.{ascending, sort}

-- `entry`
pub record Entry : Type 0 where
  pub hex : Bytes
  pub name : Bytes
  pub feel : ℕ

-- `color.Common`
pub record Common : Type 0 where
  pub hex : Bytes
  pub name : Bytes

abbrev entry : String → String → ℕ → Entry
entry hex name feel = record { hex = codes hex; name = codes name; feel = feel }

unfoldable pub entries : List Entry
entries =
    entry "#000000" "black" 0
    ∷ entry "#ffffff" "white" 1000000
    ∷ entry "#ff0000" "red" 10628258
    ∷ entry "#00ff00" "lime" 50866295
    ∷ entry "#0000ff" "blue" 90452313
    ∷ entry "#ffff00" "yellow" 30968211
    ∷ entry "#00ffff" "cyan" 60905155
    ∷ entry "#ff00ff" "magenta" 110702322
    ∷ entry "#c0c0c0" "silver" 808000
    ∷ entry "#808080" "gray" 600000
    ∷ entry "#800000" "maroon" 10377155
    ∷ entry "#808000" "olive" 30581127
    ∷ entry "#008000" "green" 50520177
    ∷ entry "#800080" "purple" 110421193
    ∷ entry "#008080" "teal" 60543093
    ∷ entry "#000080" "navy" 90271188
    ∷ entry "#696969" "dimgray" 521000
    ∷ entry "#d3d3d3" "lightgray" 867000
    ∷ entry "#a9a9a9" "darkgray" 735000
    ∷ entry "#dcdcdc" "gainsboro" 894000
    ∷ entry "#dc143c" "crimson" 10571222
    ∷ entry "#b22222" "firebrick" 10497180
    ∷ entry "#8b0000" "darkred" 10400164
    ∷ entry "#cd5c5c" "indianred" 10615144
    ∷ entry "#f08080" "lightcoral" 10725138
    ∷ entry "#fa8072" "salmon" 10735152
    ∷ entry "#e9967a" "darksalmon" 10751108
    ∷ entry "#ffa07a" "lightsalmon" 10794125
    ∷ entry "#ffc0cb" "pink" 120868074
    ∷ entry "#ffb6c1" "lightpink" 120847086
    ∷ entry "#ff69b4" "hotpink" 120728197
    ∷ entry "#ff1493" "deeppink" 120655261
    ∷ entry "#db7093" "palevioletred" 120678138
    ∷ entry "#c71585" "mediumvioletred" 110553222
    ∷ entry "#ff7f50" "coral" 10735168
    ∷ entry "#ff6347" "tomato" 10696196
    ∷ entry "#ff4500" "orangered" 10660229
    ∷ entry "#ff8c00" "darkorange" 20751179
    ∷ entry "#ffa500" "orange" 20793171
    ∷ entry "#ffd700" "gold" 30887182
    ∷ entry "#f0e68c" "khaki" 30913112
    ∷ entry "#bdb76b" "darkkhaki" 30767098
    ∷ entry "#daa520" "goldenrod" 30752147
    ∷ entry "#b8860b" "darkgoldenrod" 30652132
    ∷ entry "#eee8aa" "palegoldenrod" 30921080
    ∷ entry "#ffffe0" "lightyellow" 30992040
    ∷ entry "#fffacd" "lemonchiffon" 30978058
    ∷ entry "#fff8dc" "cornsilk" 30977037
    ∷ entry "#f5deb3" "wheat" 30909061
    ∷ entry "#d2b48c" "tan" 20786064
    ∷ entry "#deb887" "burlywood" 20805078
    ∷ entry "#f4a460" "sandybrown" 20784127
    ∷ entry "#cd853f" "peru" 20678123
    ∷ entry "#d2691e" "chocolate" 20634155
    ∷ entry "#8b4513" "saddlebrown" 20471112
    ∷ entry "#a0522d" "sienna" 10526115
    ∷ entry "#a52a2a" "brown" 10481160
    ∷ entry "#bc8f8f" "rosybrown" 120693055
    ∷ entry "#f5f5dc" "beige" 30964033
    ∷ entry "#ffe4c4" "bisque" 20933051
    ∷ entry "#adff2f" "greenyellow" 40913233
    ∷ entry "#7fff00" "chartreuse" 40890265
    ∷ entry "#7cfc00" "lawngreen" 40882263
    ∷ entry "#32cd32" "limegreen" 50742229
    ∷ entry "#228b22" "forestgreen" 50558169
    ∷ entry "#006400" "darkgreen" 50436148
    ∷ entry "#9acd32" "yellowgreen" 40785184
    ∷ entry "#6b8e23" "olivedrab" 40599137
    ∷ entry "#556b2f" "darkolivegreen" 40496090
    ∷ entry "#98fb98" "palegreen" 50904162
    ∷ entry "#90ee90" "lightgreen" 50868156
    ∷ entry "#00ff7f" "springgreen" 50875235
    ∷ entry "#00fa9a" "mediumspringgreen" 50867207
    ∷ entry "#2e8b57" "seagreen" 50569119
    ∷ entry "#3cb371" "mediumseagreen" 50684144
    ∷ entry "#8fbc8f" "darkseagreen" 50751080
    ∷ entry "#7fffd4" "aquamarine" 50915130
    ∷ entry "#66cdaa" "mediumaquamarine" 50777110
    ∷ entry "#40e0d0" "turquoise" 60822131
    ∷ entry "#48d1cc" "mediumturquoise" 60787116
    ∷ entry "#00ced1" "darkturquoise" 60772131
    ∷ entry "#e0ffff" "lightcyan" 60978032
    ∷ entry "#afeeee" "paleturquoise" 60907063
    ∷ entry "#008b8b" "darkcyan" 60577098
    ∷ entry "#5f9ea0" "cadetblue" 60658065
    ∷ entry "#4682b4" "steelblue" 80588099
    ∷ entry "#b0c4de" "lightsteelblue" 80814043
    ∷ entry "#b0e0e6" "powderblue" 70875050
    ∷ entry "#add8e6" "lightblue" 70856049
    ∷ entry "#87ceeb" "skyblue" 70815082
    ∷ entry "#00bfff" "deepskyblue" 80755153
    ∷ entry "#1e90ff" "dodgerblue" 80652190
    ∷ entry "#6495ed" "cornflowerblue" 90675141
    ∷ entry "#4169e1" "royalblue" 90560188
    ∷ entry "#0000cd" "mediumblue" 90383266
    ∷ entry "#00008b" "darkblue" 90288199
    ∷ entry "#191970" "midnightblue" 90288144
    ∷ entry "#6a5acd" "slateblue" 90544171
    ∷ entry "#8a2be2" "blueviolet" 100534250
    ∷ entry "#4b0082" "indigo" 100339179
    ∷ []

-- The columns that `byName`, `byHex` and `byFeel` compare.
unfoldable pub by_name : Entry → List ℕ
by_name e = e.name

unfoldable pub by_hex : Entry → List ℕ
by_hex e = e.hex

unfoldable pub by_feel : Entry → List ℕ
by_feel e = e.feel ∷ e.hex

-- `sorted`
unfoldable pub sorted : (Entry → List ℕ) → List Entry → List Common
sorted key rows = map (λ e. record { hex = e.hex; name = e.name }) (sort ascending key rows)

abbrev pub sort_by_name : Bytes
sort_by_name = codes "name"

abbrev pub sort_by_hex : Bytes
sort_by_hex = codes "hex"

abbrev pub sort_by_feel : Bytes
sort_by_feel = codes "color"

-- `ParseSort`
unfoldable pub parse_sort : Bytes → Result Error Bytes
parse_sort s =
    if s == sort_by_name || (s == sort_by_hex || s == sort_by_feel) then ok s else err invalid_sort

pub record SortParams : Type 0 where
  pub sort : Bytes
  pub desc : Bool

-- `slices.Reverse`
unfoldable pub reverse : {A : Type 0} → List A → List A
reverse [] = []
reverse (x ∷ xs) = reverse xs ++ x ∷ []

-- The order that a sort names: an empty one means the default.
unfoldable pub key_of : Bytes → Result Error (Entry → List ℕ)
key_of s =
    if s == [] || s == sort_by_name
    then ok by_name
    else if s == sort_by_hex
    then ok by_hex
    else if s == sort_by_feel
    then ok by_feel
    else err invalid_sort

unfoldable pub listed :
    List Entry → Bool → Result Error (Entry → List ℕ) → Result Error (List Common)
unfolding sorted reverse
listed rows desc (err e) = err e
listed rows desc (ok key) = ok (if desc then reverse (sorted key rows) else sorted key rows)

-- `List`, over the table.
unfoldable pub list_of : List Entry → SortParams → Result Error (List Common)
unfolding listed key_of
list_of rows p = listed rows p.desc (key_of p.sort)

unfoldable pub list : SortParams → Result Error (List Common)
unfolding list_of entries
list p = list_of entries p
