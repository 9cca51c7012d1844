-- ===== src/Export/Products.antt =====
-- internal/features/data_export: one page of products (handler/products.go, repository/master.go), with
-- the cursor (models/cursor.go, handler/streaming.go), the entity tag and the query parameters.
use forecast_e_zoo.Common.{
  ℕ, ◌==◌, Bool, false, ◌&&◌, Option, none, some, List, [], ◌∷◌, if◌then◌else◌, length, take, keep,
  map,
}
use forecast_e_zoo.Common.Text.{Text, text_eq, codes}
use forecast_e_zoo.Common.Int.{ℤ, pos, leb_ℤ, ltb_ℤ, pos_part}
use forecast_e_zoo.Common.Session.{Result, ok, err, bad_request}

-- The columns that the handler reads.
pub record ProductRow : Type 0 where
  pub id : Text
  pub name : Text
  pub is_active : Bool
  pub load_id : ℕ

-- The fields of dto.Product that the handler fills.
pub record Product : Type 0 where
  pub product_id : Text
  pub name : Text
  pub status : Text
  pub load_id : ℕ

pub record Cursor : Type 0 where
  pub load_id : Text
  pub after_pk : Text

abbrev pub no_cursor : Cursor
no_cursor = record { load_id = []; after_pk = [] }

-- What the source uses of encoding/json with encoding/base64, of strconv and of uuid, and the order of
-- texts in the database.
pub record Outside : Type 0 where
  pub encode_cursor : Cursor → Text
  pub decode_cursor : Text → Option Cursor
  pub atoi : Text → Option ℤ
  pub uuid_text : ℕ → Text
  pub etag_of : ℕ → Text  -- ComputeETag of a load and its time of commit
  pub text_after : Text → Text → Bool  -- text_after a b: b > a

-- The answers that the client tells apart.
pub data Response (A : Type 0) : Type 0 where
  page : List A → Text → Text → Response A  -- items, X-Next-Cursor, ETag
  not_modified : Response A
  invalid_query : Response A
  not_ready : Response A

abbrev pub limit_default : ℤ
limit_default = pos 1000

abbrev pub limit_max : ℤ
limit_max = pos 10000

-- The id of the last row.
unfoldable pub last_id : List ProductRow → Text
last_id [] = []
last_id (r ∷ []) = r.id
last_id (r ∷ s ∷ rows) = last_id (s ∷ rows)

-- The parts of a number that Atoi reads, or none.
abbrev pub checked_limit : ℤ → Option ℤ → Result ℤ
checked_limit max none = err bad_request
checked_limit max (some n) =
    if leb_ℤ n (pos 0) then err bad_request else ok (if ltb_ℤ max n then max else n)

abbrev pub decoded : Option Cursor → Result Cursor
decoded none = err bad_request
decoded (some c) = ok c

abbrev pub to_product : ProductRow → Product
to_product r = record {
  product_id = r.id;
  name = r.name;
  status = if r.is_active then codes "active" else codes "archived";
  load_id = r.load_id;
}

-- CheckIfNoneMatch
abbrev pub check_if_none_match : Text → Text → Bool
check_if_none_match [] etag = false
check_if_none_match (c ∷ s) etag = text_eq (c ∷ s) etag

module _ (o : Outside) where
  unfoldable pub parse_limit : Text → ℤ → ℤ → Result ℤ
  parse_limit [] default max = ok default
  parse_limit (c ∷ s) default max = checked_limit max (o.atoi (c ∷ s))

  unfoldable pub parse_cursor : Text → Result Cursor
  parse_cursor [] = ok no_cursor
  parse_cursor (c ∷ s) = decoded (o.decode_cursor (c ∷ s))

  -- select_products.sql on the rows in the order of their ids
  unfoldable pub select_products : List ProductRow → ℕ → Text → ℤ → List ProductRow
  select_products rows load after limit =
      take (if leb_ℤ limit (pos 0) then 1000 else pos_part limit)
        (keep (λ (r : ProductRow). r.load_id == load && o.text_after after r.id) rows)

  -- WriteNextCursor: the header, empty where it is not set.
  unfoldable pub next_cursor : ℕ → Text → Text
  next_cursor load [] = []
  next_cursor load (c ∷ s) =
      o.encode_cursor (record { load_id = o.uuid_text load; after_pk = c ∷ s })

  unfoldable pub products_page : List ProductRow → ℕ → Text → ℤ → Text → Response Product
  unfolding select_products last_id next_cursor
  products_page table load after limit if_none_match =
      let rows = select_products table load after limit in
      let next =
        if length rows == pos_part limit && ltb_ℤ (pos 0) limit
        then next_cursor load (last_id rows)
        else [] in
      if check_if_none_match if_none_match (o.etag_of load)
      then not_modified
      else page (map to_product rows) next (o.etag_of load)

  abbrev pub answer :
      List ProductRow → Option ℕ → Result Cursor → Result ℤ → Text → Response Product
  answer table current (err e) limit if_none_match = invalid_query
  answer table current (ok c) (err e) if_none_match = invalid_query
  answer table none (ok c) (ok n) if_none_match = not_ready
  answer table (some load) (ok c) (ok n) if_none_match =
      products_page table load c.after_pk n if_none_match

  -- GET /v1/products?cursor=&limit=, over the table and the load of the current snapshot.
  unfoldable pub get : List ProductRow → Option ℕ → Text → Text → Text → Response Product
  unfolding parse_cursor parse_limit products_page
  get table current cursor limit if_none_match =
      answer table current (parse_cursor cursor) (parse_limit limit limit_default limit_max)
        if_none_match
