-- ===== src/Canon/Record/RoundTrip.antt =====
-- `Encode` and `Decode` of canon/record.go as one format.
use icelake.Prelude.{◌≡◌, sym, ap, ◌∙◌, ◌↔◌, All, IsByte, subst}
use icelake.Errdef.{Bytes, ok, ok-injective}
use icelake.Canon.Shape.{Descriptor}
use icelake.Canon.Record.{Row, IsGoCell, encode, decode}
use icelake.Canon.Record.Layout.{Fits, row_layout, encode-Fits, Fits-of-encode}
use icelake.Canon.Record.Reading.{decode-row_layout}
use icelake.Canon.Record.Strict.{AllKnown, decode_inv}

-- `Encode` succeeds exactly on the rows that fit the shape, a value of the column's type or a
-- permitted null in each place, and then the payload is the documented layout.
pub encode_iff :
    (table : Bytes) (d : Descriptor) (row : Row) (payload : Bytes)
    → (encode table d row ≡ ok payload) ↔ (Fits d.fields row × (payload ≡ row_layout d.fields row))
encode_iff table d row payload = (
  λ h.
      let fits = Fits-of-encode table d row h in
      (fits, ok-injective (sym h ∙ encode-Fits table d row fits)),
  λ p. encode-Fits table d row p.0 ∙ ap ok (sym p.1),
)

-- A row of Go values that `Encode` wrote is read back by `Decode` under the same shape.
pub decode-encode :
    (table reader : Bytes) (d : Descriptor) (row : Row) (payload : Bytes)
    → All IsGoCell row
    → encode table d row ≡ ok payload
    → decode reader d payload ≡ ok row
decode-encode table reader d row payload go h =
    let (fits, e) = (encode_iff table d row payload).0 h in
    subst (λ p. decode reader d p ≡ ok row) (sym e) (decode-row_layout reader d row fits go)

-- Under a shape of known kinds, a byte string that `Decode` accepts is the very string that `Encode`
-- writes for the row that it returned.
pub encode-decode :
    (table writer : Bytes) (d : Descriptor) (row : Row) (payload : Bytes)
    → AllKnown d.fields
    → All IsByte payload
    → decode table d payload ≡ ok row
    → encode writer d row ≡ ok payload
encode-decode table writer d row payload known b h =
    let (e, fits, go) = decode_inv table d payload known b h in
    (encode_iff writer d row payload).1 (fits, e)
