-- ===== src/Tests/Pages.antt =====
-- A small table, and the pages that the storage and the command line client make of it.
use ldk_server.Prelude.{
  ℕ, ◌≤◌, ◌≡◌, refl, true, ap, arith, Option, none, some, List, [], ◌∷◌, ◌++◌, map, ok, length,
  if◌then◌else◌, ◌&&◌, find?, filter, leb,
}
use ldk_server.Prelude.Int.{pos}
use ldk_server.Text.{Text, lit, text_eq}
use ldk_server.Text.Order.{text_lt}
use ldk_server.Text.Split.{lacks}
use ldk_server.Storage.Namespace.{KvEnv, check_namespace_key_validity}
use ldk_server.Storage.Sqlite.{
  cursor, in_namespace, order_by, Row, works, upsert, read, write, list, has_key, before,
}
use mathlib.Core.List.{Perm}
use ldk_server.Storage.Sqlite.Latest.{IsLatestFirst, listing-IsLatestFirst}
use ldk_server.Storage.Sqlite.Table.{IsTable}
use ldk_server.Storage.Sqlite.Access.{write-IsTable, read-write, new_row}
use ldk_server.Storage.Sqlite.Listing.{list-write_existing}
use ldk_server.Storage.Sqlite.Pages.{listing, key_of, first_page, list-rest, list-first}
use ldk_server.Cli.Paging.{
  PageToken, Memory, with_capacity, fetch_paginated, format_page_token, parse_page_token,
  new_response,
}
use ldk_server.Cli.Paging.Complete.{Fetched, keys_and_token}
use ldk_server.Cli.Paging.Store.{fetch_keys, fetch_paginated-Fetched, fetch_paginated_all}
use ldk_server.Cli.Paging.Tokens.{parse_page_token-format}

abbrev pub lower_case : KvEnv
lower_case = record {
  alphabet = lit "abcdefghijklmnopqrstuvwxyz_";
  max_len = 120;
  printable = λ s. s;
}

abbrev pub payments : Text
payments = lit "payments"

abbrev pub two_payments : List Row
two_payments =
    new_row lower_case payments [] (lit "a") (pos 5) (1 ∷ [])
    ∷ new_row lower_case payments [] (lit "b") (pos 7) (2 ∷ [])
    ∷ []

pub two_payments-IsTable : IsTable two_payments
unfolding text_eq lit
two_payments-IsTable = record {
  unique = ((refl, tt), (tt, tt));
  rows = ((refl, omega arith), ((refl, omega arith), tt));
}

abbrev after : List Row
after = two_payments ++ new_row lower_case payments [] (lit "c") (pos 6) (3 ∷ []) ∷ []

write-c :
    write lower_case works payments [] (lit "c") (pos 6) (3 ∷ []) two_payments ≡ (ok tt, after)
unfolding write check_namespace_key_validity upsert text_eq lit
write-c = refl

write-IsTable_example :
    IsTable (write lower_case works payments [] (lit "c") (pos 6) (3 ∷ []) two_payments).1
write-IsTable_example =
    write-IsTable lower_case payments [] works (lit "c") (pos 6) (3 ∷ []) two_payments (omega arith)
      two_payments-IsTable

read-write_example : read lower_case works payments [] (lit "a") after ≡ (
    if text_eq payments payments && text_eq [] [] && text_eq (lit "c") (lit "a")
    then ok (3 ∷ [])
    else read lower_case works payments [] (lit "a") two_payments)
read-write_example =
    read-write lower_case payments [] (lit "c") payments [] (lit "a") (pos 6) (3 ∷ []) two_payments
      after write-c

abbrev rewritten : List Row
rewritten =
    new_row lower_case payments [] (lit "a") (pos 5) (9 ∷ [])
    ∷ new_row lower_case payments [] (lit "b") (pos 7) (2 ∷ [])
    ∷ []

write-a :
    write lower_case works payments [] (lit "a") (pos 8) (9 ∷ []) two_payments ≡ (ok tt, rewritten)
unfolding write check_namespace_key_validity upsert text_eq lit
write-a = refl

found-a :
    find? (has_key payments [] (lit "a")) two_payments
    ≡ some (new_row lower_case payments [] (lit "a") (pos 5) (1 ∷ []))
unfolding text_eq lit
found-a = refl

list-write_existing_example :
    list lower_case works payments [] none rewritten
    ≡ list lower_case works payments [] none two_payments
list-write_existing_example =
    list-write_existing lower_case payments [] (lit "a") payments [] (pos 8) (9 ∷ []) two_payments
      rewritten (new_row lower_case payments [] (lit "a") (pos 5) (1 ∷ [])) none found-a write-a

pub listable : check_namespace_key_validity lower_case payments [] none (lit "list") ≡ ok tt
unfolding check_namespace_key_validity lit
listable = refl

pub two_listed : listing payments [] two_payments ≡ [] ++ (lit "b", pos 7) ∷ (lit "a", pos 5) ∷ []
unfolding order_by before text_eq text_lt lit
two_listed = refl

listing-IsLatestFirst_example :
    IsLatestFirst (listing payments [] two_payments)
    × Perm
        (listing payments [] two_payments)
        (map cursor (filter (in_namespace payments []) two_payments))
listing-IsLatestFirst_example = listing-IsLatestFirst payments [] two_payments two_payments-IsTable

list-rest_example :
    list lower_case works payments [] (some (lit "b", pos 7)) two_payments
    ≡ ok (first_page ((lit "a", pos 5) ∷ []))
list-rest_example =
    list-rest lower_case payments [] two_payments two_payments-IsTable listable [] (lit "b", pos 7)
      ((lit "a", pos 5) ∷ []) two_listed

list-first_example :
    list lower_case works payments [] none two_payments
    ≡ ok (first_page (listing payments [] two_payments))
list-first_example = list-first lower_case payments [] two_payments two_payments-IsTable listable

-- Room for a thousand bytes, and items of a hundred.
abbrev small_memory : Memory
small_memory = record { item_size = 100; allocates = λ bytes. leb bytes 1000 }

reserved : (n : ℕ) → n ≤ 10 → with_capacity small_memory n ≡ true
unfolding with_capacity
reserved n h = ground (arith, h)

fetch_paginated-Fetched_example :
    Fetched
      (fetch_keys lower_case payments [] two_payments)
      1
      []
      (listing payments [] two_payments)
      (fetch_paginated
        (fetch_keys lower_case payments [] two_payments)
        keys_and_token
        small_memory
        5
        (some 1)
        none)
fetch_paginated-Fetched_example =
    fetch_paginated-Fetched lower_case payments [] two_payments small_memory 5 1
      two_payments-IsTable listable (reserved 1 (omega arith)) (omega (arith, ap length two_listed))

fetch_paginated_all_example :
    (next : Option PageToken) × (fetch_paginated
        (fetch_keys lower_case payments [] two_payments)
        keys_and_token
        small_memory
        5
        (some 9)
        none
      ≡ some (ok (new_response (map key_of (listing payments [] two_payments)) next)))
fetch_paginated_all_example =
    fetch_paginated_all lower_case payments [] two_payments small_memory 5 9 two_payments-IsTable
      listable (reserved 9 (omega arith)) (omega (arith, ap length two_listed))
      (omega (arith, ap length two_listed))

abc-lacks : lacks b':' (lit "abc") ≡ true
unfolding lit
abc-lacks = refl

parse_page_token-format_example :
    parse_page_token (format_page_token (record { token = lit "abc"; index = pos 7 }))
    ≡ ok (record { token = lit "abc"; index = pos 7 })
parse_page_token-format_example =
    parse_page_token-format (record { token = lit "abc"; index = pos 7 }) abc-lacks (omega arith)
      (omega arith)
