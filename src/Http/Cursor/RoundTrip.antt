-- ===== src/Http/Cursor/RoundTrip.antt =====
-- Cursors that were handed out, under the sort and order that they were made for and under others.
use wavelen.Prelude.{
  Bytes, true, not, ◌||◌, List, [], ◌∷◌, ◌++◌, ◌==◌, nat_eq, bytes_eq, ==_iff, ==_refl,
  if◌then◌else◌, ok, err, ◌≡◌, ◌≢◌, ◌⊎◌, inl, inr, arith, all, ◌∙◌, bytes_beq,
}
use wavelen.Errors.{invalid_cursor}
use wavelen.Color.Hex.{Parser, is_hex, is_hex_digit}
use wavelen.Encoding.Base64.{encode, decode-encode, AreBytes}
use wavelen.Encoding.Parts.{join, split-join, Lacks, AllLack}
use wavelen.Storage.Schema.{Color}
use wavelen.Storage.Colors.Sorting.{
  ColorCursor, sort_by_created_at, sort_by_hex, sort_by_color, order_asc, order_desc,
  parse_color_sort, parse_sort_order,
}
use wavelen.Http.Cursor.{TimeText, no_time, cursor_key, encode_cursor, decode_parts, decode_cursor}

are_digits : (s : Bytes) → all is_hex_digit s ≡ true → Lacks b'|' s × AreBytes s
unfolding is_hex_digit
are_digits [] h = (tt, tt)
are_digits (c ∷ s) h = ground (arith, are_digits s)

is_hex-plain : (h : Bytes) → is_hex h ≡ true → Lacks b'|' h × AreBytes h
unfolding is_hex
is_hex-plain [] h = cc
is_hex-plain (c ∷ s) h = ground (arith, are_digits s)

AreBytes-append : (s t : Bytes) → AreBytes s → AreBytes t → AreBytes (s ++ t)
AreBytes-append [] t h k = k
AreBytes-append (c ∷ s) t (b, h) k = (b, AreBytes-append s t h k)

abbrev AllBytes : List Bytes → Type 0
AllBytes [] = Unit
AllBytes (p ∷ ps) = AreBytes p × AllBytes ps

join-AreBytes : (parts : List Bytes) → AllBytes parts → AreBytes (join b'|' parts)
unfolding join
join-AreBytes [] h = tt
join-AreBytes (p ∷ []) h = h.0
join-AreBytes (p ∷ q ∷ ps) (h, k) = AreBytes-append p _ h (omega arith, join-AreBytes (q ∷ ps) k)

module _ (times : TimeText) (parser : Parser) (sort order : Bytes) where
  -- What decoding a token of such parts comes to.
  decode_cursor-encode :
      (got_sort got_order : Bytes) (key : List Bytes)
      → AllLack b'|' (got_sort ∷ got_order ∷ key)
      → AllBytes (got_sort ∷ got_order ∷ key)
      → decode_cursor times parser (encode (join b'|' (got_sort ∷ got_order ∷ key))) sort order
        ≡ decode_parts times parser sort order (got_sort ∷ got_order ∷ key)
  unfolding decode_cursor
  decode_cursor-encode got_sort got_order key plain bytes = rw (
    decode-encode (join b'|' (got_sort ∷ got_order ∷ key))
        (join-AreBytes (got_sort ∷ got_order ∷ key) bytes),
    split-join b'|' got_sort (got_order ∷ key) plain.0 plain.1,
  )

-- The sorts and orders that a request can ask for.
abbrev IsSort : Bytes → Type 0
IsSort sort = (sort ≡ sort_by_created_at) ⊎ ((sort ≡ sort_by_hex) ⊎ (sort ≡ sort_by_color))

abbrev IsOrder : Bytes → Type 0
IsOrder order = (order ≡ order_asc) ⊎ (order ≡ order_desc)

IsSort-of_parse : (sort got : Bytes) → parse_color_sort sort ≡ ok got → IsSort sort × (got ≡ sort)
unfolding parse_color_sort
IsSort-of_parse sort got h =
    ground
      (arith, ==_iff sort sort_by_created_at, ==_iff sort sort_by_hex, ==_iff sort sort_by_color)

IsOrder-of_parse :
    (order got : Bytes) → parse_sort_order order ≡ ok got → IsOrder order × (got ≡ order)
unfolding parse_sort_order
IsOrder-of_parse order got h = ground (arith, ==_iff order order_asc, ==_iff order order_desc)

IsOrder-plain : (order : Bytes) → IsOrder order → Lacks b'|' order × AreBytes order
IsOrder-plain order (inl e) = rw e (omega arith)
IsOrder-plain order (inr e) = rw e (omega arith)

mismatch :
    (sort order sort' order' : Bytes)
    → (sort ≢ sort') ⊎ (order ≢ order')
    → (not (sort == sort') || not (order == order')) ≡ true
mismatch sort order sort' order' d = ground (arith, ==_iff sort sort', ==_iff order order')

-- What a cursor keeps of the row that it was made from.
abbrev pub kept : Bytes → Color → ColorCursor
kept sort last = record {
  created_at = if sort == sort_by_created_at then last.created_at else no_time;
  hex = last.hex;
}

module _ (times : TimeText) (parser : Parser) (last : Color) (good : is_hex last.hex ≡ true) where
  key_plain :
      (sort : Bytes)
      → IsSort sort
      → AllLack b'|' (sort ∷ cursor_key times sort last)
        × AllBytes (sort ∷ cursor_key times sort last)
  unfolding cursor_key bytes_beq
  key_plain sort (inl e) =
      let (p, b) = is_hex-plain last.hex good in
      rw e (
        (omega arith, (times.plain last.created_at, (p, tt))),
        (omega arith, (times.ascii last.created_at, (b, tt))),
      )
  key_plain sort (inr (inl e)) =
      let (p, b) = is_hex-plain last.hex good in
      rw e ((omega arith, (p, tt)), (omega arith, (b, tt)))
  key_plain sort (inr (inr e)) =
      let (p, b) = is_hex-plain last.hex good in
      rw e ((omega arith, (p, tt)), (omega arith, (b, tt)))

  tokens_plain :
      (sort order : Bytes)
      → IsSort sort
      → IsOrder order
      → AllLack b'|' (sort ∷ order ∷ cursor_key times sort last)
        × AllBytes (sort ∷ order ∷ cursor_key times sort last)
  tokens_plain sort order s o =
      let (p, b) = key_plain sort s in
      let (q, c) = IsOrder-plain order o in ((p.0, (q, p.1)), (b.0, (c, b.1)))

  decode_parts_own :
      (sort order : Bytes)
      → IsSort sort
      → decode_parts times parser sort order (sort ∷ order ∷ cursor_key times sort last)
        ≡ ok (kept sort last)
  unfolding decode_parts cursor_key bytes_beq
  decode_parts_own sort order (inl e) =
      rw (e, ==_refl order, times.parse-format last.created_at, parser.keeps last.hex good)
  decode_parts_own sort order (inr (inl e)) = rw (e, ==_refl order, parser.keeps last.hex good)
  decode_parts_own sort order (inr (inr e)) = rw (e, ==_refl order, parser.keeps last.hex good)

  some_key :
      (sort : Bytes)
      → IsSort sort
      → (part : Bytes) × (parts : List Bytes) × (cursor_key times sort last ≡ part ∷ parts)
  unfolding cursor_key bytes_beq
  some_key sort (inl e) = (times.format last.created_at, last.hex ∷ [], rw e)
  some_key sort (inr (inl e)) = (last.hex, [], rw e)
  some_key sort (inr (inr e)) = (last.hex, [], rw e)

  decode_parts_other :
      (sort order sort' order' : Bytes)
      → IsSort sort
      → (sort ≢ sort') ⊎ (order ≢ order')
      → decode_parts times parser sort' order' (sort ∷ order ∷ cursor_key times sort last)
        ≡ err invalid_cursor
  unfolding decode_parts
  decode_parts_other sort order sort' order' s d =
      let (part, parts, e) = some_key sort s in rw (e, mismatch sort order sort' order' d)

  -- A token made under a sort and an order that requests can ask for, for a row with a normalized
  -- color, is decoded under the same sort and order to the row's color, and to its time where the
  -- sort goes by time.
  pub decode_cursor-encode_cursor :
      (sort order got got' : Bytes)
      → parse_color_sort sort ≡ ok got
      → parse_sort_order order ≡ ok got'
      → decode_cursor times parser (encode_cursor times sort order last) sort order
        ≡ ok (kept sort last)
  unfolding encode_cursor
  decode_cursor-encode_cursor sort order got got' hs ho =
      let s = (IsSort-of_parse sort got hs).0 in
      let (p, b) = tokens_plain sort order s (IsOrder-of_parse order got' ho).0 in
      decode_cursor-encode times parser sort order sort order (cursor_key times sort last) p b
      ∙ decode_parts_own sort order s

  -- A token made under a sort and an order that requests can ask for, for a row with a normalized
  -- color, is refused under another sort or another order.
  pub decode_cursor_other :
      (sort order sort' order' got got' : Bytes)
      → parse_color_sort sort ≡ ok got
      → parse_sort_order order ≡ ok got'
      → (sort ≢ sort') ⊎ (order ≢ order')
      → decode_cursor times parser (encode_cursor times sort order last) sort' order'
        ≡ err invalid_cursor
  unfolding encode_cursor
  decode_cursor_other sort order sort' order' got got' hs ho d =
      let s = (IsSort-of_parse sort got hs).0 in
      let (p, b) = tokens_plain sort order s (IsOrder-of_parse order got' ho).0 in
      decode_cursor-encode times parser sort' order' sort order (cursor_key times sort last) p b
      ∙ decode_parts_other sort order sort' order' s d
