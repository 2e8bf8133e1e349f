-- ===== src/Storage/Sqlite/Pages.antt =====
-- The pages that `list` returns are consecutive pieces of one sorted listing of the namespace.
use mathlib.Core.Path.{subst}
use ldk_server.Prelude.{
  ◌≡◌, refl, ap, ◌∙◌, true, false, Option, none, some, List, [], ◌∷◌, ◌++◌, map, append-nil,
  append_assoc, ok, arith, All, filter, filter-All, take, last?, unwrap_or, Bool-cases, inl, inr,
}
use ldk_server.Prelude.Int.{ℤ, i64_max, ◌≤ℤ◌}
use ldk_server.Text.{Text, lit, is_empty}
use ldk_server.Text.Order.{text_lt}
use ldk_server.Storage.Namespace.{KvEnv, check_namespace_key_validity}
use ldk_server.Storage.Sqlite.{
  Row, Cursor, ListResponse, works, cursor, in_namespace, is_behind, before, order_by, select_page,
  gather, both, list_response, list, list_keys_max_page_size,
}
use ldk_server.Storage.Sqlite.Order.{
  IsSorted, is_behind-before, filter-order_by, order_by-IsSorted, filter-before-rest, All-order_by,
}
use ldk_server.Storage.Sqlite.Table.{IsTable, IsRow}
use ldk_server.Storage.Sqlite.Listing.{cursors-HasDistinctKeys}

-- All cursors of a namespace, latest first.
abbrev pub listing : Text → Text → List Row → List Cursor
listing p n table = order_by (map cursor (filter (in_namespace p n) table))

abbrev pub key_of : Cursor → Text
key_of c = c.0

last_time : Option ℤ → List Cursor → Option ℤ
last_time o [] = o
last_time o (c ∷ rows) = last_time (some c.1) rows

gather-lem :
    (keys : List Text) (o : Option ℤ) (rows : List Cursor)
    → gather keys o rows ≡ (keys ++ map key_of rows, last_time o rows)
unfolding gather last_time
gather-lem keys o [] = rw append-nil
gather-lem keys o ((k, ct) ∷ rows) =
    rw (gather-lem (keys ++ k ∷ []) (some ct) rows)
      (rw (append_assoc keys (k ∷ []) (map key_of rows)))

both-last :
    (c : Cursor) (rows : List Cursor)
    → both (last? (map key_of (c ∷ rows))) (last_time (some c.1) rows) ≡ last? (c ∷ rows)
unfolding last_time
both-last c [] = refl
both-last c (d ∷ rows) = both-last d rows

-- The keys of a page are those of its rows, and its token is the last row.
pub keys-list_response : (rows : List Cursor) → (list_response rows).keys ≡ map key_of rows
unfolding list_response
keys-list_response rows = rw (gather-lem [] none rows)

pub next-list_response : (rows : List Cursor) → (list_response rows).next_page_token ≡ last? rows
unfolding list_response
next-list_response [] = unfold gather in refl
next-list_response (c ∷ rows) =
    rw (gather-lem [] none (c ∷ rows)) (unfold last_time in both-last c rows)

-- The page that a listing begins with.
abbrev pub first_page : List Cursor → ListResponse
first_page rows = list_response (take list_keys_max_page_size rows)

module _ (env : KvEnv) (p n : Text) (table : List Row) (h : IsTable table)
    (valid : check_namespace_key_validity env p n none (lit "list") ≡ ok tt) where
  cursors : List Cursor
  cursors = map cursor (filter (in_namespace p n) table)

  selected :
      (c : Cursor)
      → filter (is_behind c) (map cursor (filter (in_namespace p n) table))
        ≡ filter (before c) (map cursor (filter (in_namespace p n) table))
  selected c i = filter (λ d. is_behind-before c d i) (map cursor (filter (in_namespace p n) table))

  list-filtered :
      (token : Option Cursor)
      → list env works p n token table
        ≡ ok (first_page (filter (before (unwrap_or token ([], i64_max))) (listing p n table)))
  unfolding list select_page
  list-filtered token =
      rw (valid, selected (unwrap_or token ([], i64_max)))
        (rw (
          filter-order_by (before (unwrap_or token ([], i64_max)))
            (map cursor (filter (in_namespace p n) table))
            (cursors-HasDistinctKeys p n table h.unique)))

  -- The listing of a namespace of a well-formed table that the store accepts is strictly sorted:
  -- latest first, and by key where the times are equal.
  pub listing-IsSorted : IsSorted (listing p n table)
  listing-IsSorted =
      order_by-IsSorted (map cursor (filter (in_namespace p n) table))
        (cursors-HasDistinctKeys p n table h.unique)

  -- Called with a cursor of the sorted listing of a namespace as page token, the table being well
  -- formed and the namespace accepted by the store, list returns the page of at most a hundred keys
  -- that the listing goes on with behind that cursor, and its next token.
  pub list-rest :
      (pre : List Cursor) (c : Cursor) (rest : List Cursor)
      → listing p n table ≡ pre ++ c ∷ rest
      → list env works p n (some c) table ≡ ok (first_page rest)
  list-rest pre c rest e =
      list-filtered (some c)
      ∙ ap (λ rows. ok (first_page rows))
          (ap (filter (before c)) e
            ∙ filter-before-rest pre c rest (subst IsSorted e listing-IsSorted))

  first-before :
      (c : Cursor) → (is_empty c.0 ≡ false) × (c.1 ≤ℤ i64_max) → before ([], i64_max) c ≡ true
  unfolding before text_lt
  first-before ([], t) (e, b) = cc
  first-before (a ∷ k, t) (e, b) = ground arith

  cursors-rows :
      (t : List Row)
      → All IsRow t
      → All
          (λ (c : Cursor). before ([], i64_max) c ≡ true)
          (map cursor (filter (in_namespace p n) t))
  cursors-rows [] rs = tt
  cursors-rows (r ∷ t) (q, rs) = elim (Bool-cases (in_namespace p n r)) [
    | inl here ↦ rw here (first-before (cursor r) q, cursors-rows t rs)
    | inr there ↦ rw there (cursors-rows t rs)
  ]

  -- Called without a token on a well-formed table, for a namespace that the store accepts, list
  -- returns the first page of the whole sorted listing.
  pub list-first : list env works p n none table ≡ ok (first_page (listing p n table))
  list-first =
      let latest =
        All-order_by (λ c. before ([], i64_max) c ≡ true)
          (map cursor (filter (in_namespace p n) table)) (cursors-rows table h.rows) in
      list-filtered none
      ∙ ap (λ rows. ok (first_page rows))
          (filter-All (before ([], i64_max)) (listing p n table) latest)
