-- ===== src/Etl/Extractor/Complete.antt =====
-- Reading the export of products page by page: all rows, each once, in their order.
use mathlib.Core.List.{map-append, append_assoc}
use forecast_e_zoo.Common.{
  ℕ, zero, suc, ◌+◌, ◌*◌, ◌==◌, ==_iff, ◌≤◌, ◌<◌, ◌≡◌, ◌≢◌, refl, ap, sym, ◌∙◌, inl, inr, true,
  false, List-cases, some, List, [], ◌∷◌, ◌++◌, if◌then◌else◌, All, All-weaken, length,
  length-append, take, keep, map, arith,
}
use forecast_e_zoo.Common.Text.{Text}
use forecast_e_zoo.Common.Session.{ok}
use forecast_e_zoo.Export.Products.{
  ProductRow, Product, Cursor, no_cursor, Outside, Response, page, not_modified, invalid_query,
  not_ready, last_id, next_cursor, select_products, to_product, products_page, parse_cursor,
  parse_limit, get,
}
use forecast_e_zoo.Export.Paging.{
  take-Split, keep-and, keep_passing, keep-keep, IsLawful, Ascending, Ascending-keep, keep-passes,
  All-keep, All-last, last_id-append, keep_after,
}
use forecast_e_zoo.Etl.Extractor.{
  Fetched, fetched, unchanged, unavailable, fetch_page, page_fetch_safety_cap, read_pages, stream,
}

below_full : (n : ℕ) → n ≤ 999 → (n == 1000) ≡ false
below_full n h = ground arith

-- What a full page leaves.
full_split :
    (full rest n : ℕ)
    → 1000 + n ≡ 1000 * full + rest
    → rest ≤ 999
    → (left : ℕ) × (full ≡ suc left) × (n ≡ 1000 * left + rest)
full_split zero rest n e r = absurd (omega arith)
full_split (suc left) rest n e r = (left, refl, omega arith)

full_page :
    (xs : List ProductRow) (y : ProductRow)
    → length xs ≡ 999
    → (length (xs ++ y ∷ []) == 1000) ≡ true
full_page xs y h =
    (==_iff (length (xs ++ y ∷ [])) 1000).1 (omega (arith, length-append xs (y ∷ [])))

module _ (o : Outside) (table : List ProductRow) (load : ℕ) where
  -- The answer of the export to a request of the client, which names no limit.
  abbrev pub answered : Response Product → Fetched Product
  answered (page items next etag) = fetched items next
  answered not_modified = unchanged
  answered invalid_query = unavailable
  answered not_ready = unavailable

  pub serve : Text → Text → Fetched Product
  serve cursor etag = answered (get o table (some load) cursor [] etag)

  -- The rows of the load.
  abbrev pub of_load : List ProductRow
  of_load = keep (λ (r : ProductRow). r.load_id == load) table

  abbrev behind : Text → List ProductRow
  behind a = keep (λ (r : ProductRow). o.text_after a r.id) of_load

  abbrev page_of : Text → List ProductRow
  page_of a = take 1000 (behind a)

  serve_page :
      (cursor : Text) (c : Cursor)
      → parse_cursor o cursor ≡ ok c
      → serve cursor []
        ≡ fetched (map to_product (page_of c.after_pk)) (
            if length (page_of c.after_pk) == 1000
            then next_cursor o load (last_id (page_of c.after_pk))
            else [])
  unfolding serve get products_page select_products parse_limit
  serve_page cursor c e = rw e (
      ground (
        arith,
        keep-and (λ (r : ProductRow). r.load_id == load)
            (λ (r : ProductRow). o.text_after c.after_pk r.id) table,
      ))

  -- A load in the order of its ids, none of them empty.
  module _ (lawful : IsLawful o) (ascending : Ascending o of_load)
      (named : All (λ (r : ProductRow). r.id ≢ []) of_load) where
    next_cursor-parse :
        (id : Text)
        → id ≢ []
        → (x : ℕ) × (s : Text) × (next_cursor o load id ≡ x ∷ s)
          × (parse_cursor o (x ∷ s) ≡ ok (record { load_id = o.uuid_text load; after_pk = id }))
    unfolding next_cursor parse_cursor
    next_cursor-parse [] n = absurd (n refl)
    next_cursor-parse (c ∷ t) n =
        let cursor : Cursor = record { load_id = o.uuid_text load; after_pk = c ∷ t } in
        elim (List-cases (o.encode_cursor cursor)) [
          | inl e ↦ absurd (lawful.encode_nonempty cursor e)
          | inr (x, s, e) ↦ (x, s, e, rw (← e, lawful.decode-encode cursor) refl)
        ]

    behind_last :
        (a : Text) (xs : List ProductRow) (y : ProductRow) (ys : List ProductRow)
        → behind a ≡ xs ++ y ∷ ys
        → behind y.id ≡ ys
    behind_last a xs y ys e =
        let passed : o.text_after a y.id ≡ true =
          All-last (λ (r : ProductRow). o.text_after a r.id ≡ true) xs y ys
            (rw e at (keep-passes (λ (r : ProductRow). o.text_after a r.id) of_load)) in
        let sorted : Ascending o (xs ++ y ∷ ys) =
          rw e at (Ascending-keep o (λ (r : ProductRow). o.text_after a r.id) of_load ascending) in
        sym (
          keep-keep (λ (r : ProductRow). o.text_after a r.id)
            (λ (r : ProductRow). o.text_after y.id r.id) of_load
            (λ r h. lawful.after_trans a y.id r.id passed h))
        ∙ ap (keep (λ (r : ProductRow). o.text_after y.id r.id)) e
        ∙ keep_after o lawful xs y ys sorted

    last_named :
        (a : Text) (xs : List ProductRow) (y : ProductRow) (ys : List ProductRow)
        → behind a ≡ xs ++ y ∷ ys
        → y.id ≢ []
    last_named a xs y ys e =
        All-last (λ (r : ProductRow). r.id ≢ []) xs y ys
          (rw e at (
            All-keep (λ (r : ProductRow). r.id ≢ []) (λ (r : ProductRow). o.text_after a r.id)
              of_load named))

    serve_short :
        (cursor : Text) (c : Cursor)
        → parse_cursor o cursor ≡ ok c
        → page_of c.after_pk ≡ behind c.after_pk
        → length (behind c.after_pk) ≤ 999
        → serve cursor [] ≡ fetched (map to_product (behind c.after_pk)) []
    serve_short cursor c p t short =
        let part = below_full (length (behind c.after_pk)) short in
        serve_page cursor c p ∙ rw (t, part) refl

    serve_long :
        (cursor : Text) (c : Cursor) (xs : List ProductRow) (y : ProductRow)
        → parse_cursor o cursor ≡ ok c
        → page_of c.after_pk ≡ xs ++ y ∷ []
        → length xs ≡ 999
        → serve cursor [] ≡ fetched (map to_product (xs ++ y ∷ [])) (next_cursor o load y.id)
    serve_long cursor c xs y p t m =
        let full = full_page xs y m in
        serve_page cursor c p ∙ rw (t, full, last_id-append xs y) refl

    read_pages-behind :
        (left : ℕ) (cursor : Text) (c : Cursor)
        → parse_cursor o cursor ≡ ok c
        → length (behind c.after_pk) < 1000 * left
        → (read_pages serve left cursor []).rows ≡ ok (map to_product (behind c.after_pk))
    unfolding read_pages fetch_page
    read_pages-behind zero cursor c p n = absurd (omega arith)
    read_pages-behind (suc left) cursor c p n = elim (take-Split 999 (behind c.after_pk)) [
      | inl (t, short) ↦ rw (serve_short cursor c p t short) refl
      | inr (xs, y, ys, e, t, m) ↦
          let next = next_cursor-parse y.id (last_named c.after_pk xs y ys e) in
          let rest = behind_last c.after_pk xs y ys e in
          let later =
            read_pages-behind left (next.0 ∷ next.1)
              (record { load_id = o.uuid_text load; after_pk = y.id }) next.3
              (omega (arith, ap length rest, ap length e, length-append xs (y ∷ ys))) in
          rw (serve_long cursor c xs y p t m, next.2, later, e, rest)
            (ap ok (
              sym (map-append to_product (xs ++ y ∷ []) ys)
              ∙ ap (map to_product) (append_assoc xs (y ∷ []) ys)))
    ]

    -- One page for each thousand rows, and a last one that is not full.
    read_pages-pages :
        (left : ℕ) (cursor : Text) (c : Cursor) (full rest : ℕ)
        → parse_cursor o cursor ≡ ok c
        → length (behind c.after_pk) ≡ 1000 * full + rest
        → rest ≤ 999
        → full < left
        → (read_pages serve left cursor []).pages ≡ full + 1
    unfolding read_pages fetch_page
    read_pages-pages zero cursor c full rest p n r h = absurd (omega arith)
    read_pages-pages (suc left) cursor c full rest p n r h =
        elim (take-Split 999 (behind c.after_pk)) [
          | inl (t, short) ↦ rw (serve_short cursor c p t short) (omega (arith, n))
          | inr (xs, y, ys, e, t, m) ↦
              let next = next_cursor-parse y.id (last_named c.after_pk xs y ys e) in
              let behind = behind_last c.after_pk xs y ys e in
              let size =
                full_split full (rest) (length ys)
                  (omega (arith, n, ap length e, length-append xs (y ∷ ys))) r in
              let later =
                read_pages-pages left (next.0 ∷ next.1)
                  (record { load_id = o.uuid_text load; after_pk = y.id }) size.0 rest next.3
                  (ap length behind ∙ size.2) r (omega (arith, h, size.1)) in
              rw (serve_long cursor c xs y p t m, next.2, later) (omega (arith, size.1))
        ]

    first_cursor : parse_cursor o [] ≡ ok no_cursor
    unfolding parse_cursor
    first_cursor = refl

    behind_none : behind [] ≡ of_load
    behind_none =
        keep_passing (λ (r : ProductRow). o.text_after [] r.id) of_load
          (All-weaken {P = λ (r : ProductRow). r.id ≢ []}
            {Q = λ (r : ProductRow). o.text_after [] r.id ≡ true} (λ r n. lawful.after_empty r.id n)
            of_load named)

    -- Reading the export of a load of `1000 * full + rest` rows (`rest` below 1000), which stand by
    -- strictly increasing ids, none of them empty, and fill fewer pages than the cap allows, asks for
    -- `full + 1` pages and then ends: a page that is not full is the last, and a load whose last page
    -- is full costs one more page, which is empty.
    pub stream-pages :
        (full rest : ℕ)
        → length of_load ≡ 1000 * full + rest
        → rest < 1000
        → full < page_fetch_safety_cap
        → (stream serve []).pages ≡ full + 1
    unfolding stream
    stream-pages full rest n r h =
        read_pages-pages page_fetch_safety_cap [] no_cursor full rest first_cursor
          (ap length behind_none ∙ n) (omega arith) h

    -- When the rows of a load stand by strictly increasing ids, none of them empty, and are fewer than
    -- the cap on pages allows, reading the export to its end gives every row of the load once, in their
    -- order: no row is lost or repeated from one page to the next.
    pub stream_complete :
        length of_load < 1000 * page_fetch_safety_cap
        → (stream serve []).rows ≡ ok (map to_product of_load)
    unfolding stream
    stream_complete h =
        read_pages-behind page_fetch_safety_cap [] no_cursor first_cursor (rw behind_none h)
        ∙ rw behind_none refl
