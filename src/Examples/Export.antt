-- ===== src/Examples/Export.antt =====
-- An export of three products, of which two are of the load that is read.
use forecast_e_zoo.Common.{
  ℕ, zero, suc, ◌++◌, ◌≡◌, ◌≢◌, refl, true, Option, none, some, List, [], ◌∷◌, map, arith,
}
use forecast_e_zoo.Common.Text.{Text, codes, text_lt, text_lt_irrefl, text_lt_trans}
use forecast_e_zoo.Common.Session.{ok}
use forecast_e_zoo.Export.Products.{ProductRow, Cursor, Outside, to_product}
use forecast_e_zoo.Export.Paging.{IsLawful}
use forecast_e_zoo.Etl.Extractor.{stream}
use forecast_e_zoo.Etl.Extractor.Complete.{serve, of_load, stream-pages, stream_complete}

-- A cursor with the length of its first part before both parts.
abbrev size : Text → ℕ
size [] = 0
size (c ∷ s) = suc (size s)

encode : Cursor → Text
encode c = size c.load_id ∷ c.load_id ++ c.after_pk

split : ℕ → Text → Cursor
split zero s = record { load_id = []; after_pk = s }
split (suc n) [] = record { load_id = []; after_pk = [] }
split (suc n) (c ∷ s) = let rest = split n s in record rest { load_id = c ∷ rest.load_id }

decode : Text → Option Cursor
decode [] = none
decode (n ∷ s) = some (split n s)

split-size : (a b : Text) → split (size a) (a ++ b) ≡ record { load_id = a; after_pk = b }
unfolding split
split-size [] b = refl
split-size (c ∷ a) b = rw (split-size a b) refl

abbrev outside : Outside
outside = record {
  encode_cursor = encode;
  decode_cursor = decode;
  atoi = λ s. none;
  uuid_text = λ n. n ∷ [];
  etag_of = λ n. n ∷ [];
  text_after = text_lt;
}

after_empty : (s : Text) → s ≢ [] → text_lt [] s ≡ true
unfolding text_lt
after_empty [] n = absurd (n refl)
after_empty (c ∷ s) n = refl

decode-encode : (c : Cursor) → decode (encode c) ≡ some c
unfolding decode encode
decode-encode c = rw (split-size c.load_id c.after_pk) refl

encode_nonempty : (c : Cursor) → encode c ≢ []
unfolding encode
encode_nonempty c e = ground arith

outside-IsLawful : IsLawful outside
outside-IsLawful = record {
  decode-encode = decode-encode;
  encode_nonempty = encode_nonempty;
  after_irrefl = text_lt_irrefl;
  after_trans = text_lt_trans;
  after_empty = after_empty;
}

abbrev product : Text → ℕ → ProductRow
product id load = record { id = id; name = codes "milk"; is_active = true; load_id = load }

abbrev table : List ProductRow
table = product (codes "p1") 5 ∷ product (codes "p2") 4 ∷ product (codes "p3") 5 ∷ []

in_order : text_lt (codes "p1") (codes "p3") ≡ true
unfolding text_lt
in_order = refl

stream-pages_example : (stream (serve outside table 5) []).pages ≡ 1
stream-pages_example =
    stream-pages outside table 5 outside-IsLawful (((in_order, tt), (tt, tt)))
      ((λ e. ground arith), ((λ e. ground arith), tt)) 0 2 refl (omega arith) (omega arith)

stream_complete_example :
    (stream (serve outside table 5) []).rows ≡ ok (map to_product (of_load outside table 5))
stream_complete_example =
    stream_complete outside table 5 outside-IsLawful (((in_order, tt), (tt, tt)))
      ((λ e. ground arith), ((λ e. ground arith), tt)) (omega arith)
