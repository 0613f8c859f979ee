-- ===== src/Canon/Remap/Transcoding.antt =====
-- `Transcode` of canon/remap.go: a stored payload brought to another shape.
use icelake.Prelude.{◌≡◌, ℤ, Option, List, [], ◌∷◌, sym, length, All, subst, IsByte}
use icelake.Prelude.{◌==ℤ◌, if◌then◌else◌, Bool, true, false}
use icelake.Errdef.{Bytes, ok, >>=-eq-ok, ok-injective}
use icelake.Canon.Shape.{Field, Descriptor}
use icelake.Canon.Record.{Value, Row, IsGoCell, decode}
use icelake.Canon.Record.Layout.{row_layout, encode-Fits}
use icelake.Canon.Record.Strict.{AllKnown, decode_inv}
use icelake.Canon.Record.RoundTrip.{decode-encode}
use icelake.Canon.Remap.{remap_column, remap_columns, remap, transcode}
use icelake.Canon.Remap.Lookup.{value_of}
use icelake.Canon.Remap.Meaning.{value_of-remap, remap-Fits, remap_inv, remap_column_inv}

value_of-IsGoCell :
    (fs : List Field) (row : Row) (id : ℤ) → All IsGoCell row → IsGoCell (value_of fs row id)
unfolding value_of
value_of-IsGoCell [] row id h = tt
value_of-IsGoCell (f ∷ fs) [] id h = tt
value_of-IsGoCell (f ∷ fs) (v ∷ row) id (h, hs) =
    pick (f.id ==ℤ id) v (value_of fs row id) h (value_of-IsGoCell fs row id hs)
  where
    pick : (b : Bool) (v w : Option Value) → IsGoCell v → IsGoCell w → IsGoCell (if b then v else w)
    pick true v w hv hw = hv
    pick false v w hv hw = hw

remap_columns-IsGoCell :
    (table : Bytes) (from : List Field) (row : Row) (to : List Field) {out : Row}
    → length row ≡ length from
    → All IsGoCell row
    → remap_columns table from row to ≡ ok out
    → All IsGoCell out
unfolding remap_columns
remap_columns-IsGoCell table from row [] l go h = subst (All IsGoCell) (ok-injective h) tt
remap_columns-IsGoCell table from row (want ∷ to) {out} l go h =
    let (v, e1, h1) = >>=-eq-ok (remap_column table from row want) _ {w = out} h in
    let (vs, e2, h2) = >>=-eq-ok (remap_columns table from row to) _ {w = out} h1 in
    let (same, _) = remap_column_inv table from row want l e1 in
    subst (All IsGoCell) (ok-injective h2) (
      subst IsGoCell (sym same) (value_of-IsGoCell from row want.id go),
      remap_columns-IsGoCell table from row to l go e2,
    )

-- Between shapes of known kinds, where `Decode` of a byte string gives a row and `Remap` moves the
-- row, `Transcode` succeeds, with the documented layout of the moved row.
pub transcode-remap :
    (table : Bytes) (from to : Descriptor) (payload : Bytes) (row out : Row)
    → AllKnown from.fields
    → AllKnown to.fields
    → All IsByte payload
    → decode table from payload ≡ ok row
    → remap table from to row ≡ ok out
    → transcode table from to payload ≡ ok (row_layout to.fields out)
unfolding transcode
transcode-remap table from to payload row out kf kt bs d r =
    let (_, fits, _) = decode_inv table from payload kf bs d in
    rw d (rw r (encode-Fits table to out (remap-Fits table from to row out kt fits r)))

-- Between shapes of known kinds, what `Transcode` returns for a byte string decodes under the target
-- shape, to a row that has at every field id the value of the row that the string decodes to under
-- the source shape.
pub decode-transcode :
    (table : Bytes) (from to : Descriptor) (payload payload' : Bytes)
    → AllKnown from.fields
    → AllKnown to.fields
    → All IsByte payload
    → transcode table from to payload ≡ ok payload'
    → (row : Row) × (out : Row) × (decode table from payload ≡ ok row)
      × (decode table to payload' ≡ ok out)
      × ((id : ℤ) → value_of to.fields out id ≡ value_of from.fields row id)
unfolding transcode
decode-transcode table from to payload payload' kf kt bs h =
    let (row, d, h1) = >>=-eq-ok (decode table from payload) _ {w = payload'} h in
    let (out, r, e) = >>=-eq-ok (remap table from to row) _ {w = payload'} h1 in
    let (_, _, go) = decode_inv table from payload kf bs d in
    let (l, _, _, moved) = remap_inv table from to row r in
    let go' = remap_columns-IsGoCell table from.fields row to.fields l go moved in
    (
      row,
      out,
      d,
      decode-encode table table to out payload' go' e,
      λ id. value_of-remap table from to row out id r,
    )
