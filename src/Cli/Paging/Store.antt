-- ===== src/Cli/Paging/Store.antt =====
-- Paging through the SQLite store by `fetch_paginated`.
use ldk_server.Prelude.{
  ℕ, ◌<◌, ◌≡◌, refl, sym, ap, ◌∙◌, inl, inr, Option, none, some, true, List, [], ◌++◌, map,
  append-nil, Result, ok, arith, opt_map, length, length-append, length-map,
}
use ldk_server.Text.{Text, lit}
use ldk_server.Storage.Namespace.{KvEnv, IoError, check_namespace_key_validity}
use ldk_server.Storage.Sqlite.{Row, Cursor, ListResponse, works, list}
use ldk_server.Storage.Sqlite.Table.{IsTable}
use ldk_server.Storage.Sqlite.Pages.{listing, key_of, list-rest, list-first}
use ldk_server.Cli.Paging.{PageToken, new_response, Memory, with_capacity, fetch_paginated}
use ldk_server.Cli.Paging.Complete.{of_token, keys_and_token, Fetched, fetch_loop-Fetched}

-- The storage as the server of pages.
abbrev pub fetch_keys :
    KvEnv → Text → Text → List Row → Option PageToken → Result ListResponse IoError
fetch_keys env p n table token = list env works p n (opt_map of_token token) table

module _ (env : KvEnv) (p n : Text) (table : List Row) where
  -- From a namespace of a well-formed table that the store accepts, fetch_paginated with a count
  -- that Vec::with_capacity can reserve, given more fuel than the listing has rows, terminates; its
  -- items are a beginning of the sorted listing, there are enough of them or nothing is left, and
  -- its page token, if it has one, fetches the page that the remaining listing begins with.
  pub fetch_paginated-Fetched :
      (memory : Memory) (fuel count : ℕ)
      → IsTable table
      → check_namespace_key_validity env p n none (lit "list") ≡ ok tt
      → with_capacity memory count ≡ true
      → length (listing p n table) < fuel
      → Fetched
          (fetch_keys env p n table)
          count
          []
          (listing p n table)
          (fetch_paginated (fetch_keys env p n table) keys_and_token memory fuel (some count) none)
  unfolding fetch_paginated
  fetch_paginated-Fetched memory fuel count h valid reserved enough_fuel = rw reserved (
      fetch_loop-Fetched (fetch_keys env p n table) (listing p n table)
        (list-rest env p n table h valid) fuel count [] none [] (listing p n table) refl
        (list-first env p n table h valid) enough_fuel)

  -- Asked for more items than a namespace of a well-formed table has, one that the store accepts,
  -- the number being one that Vec::with_capacity can reserve, and given more fuel than the listing
  -- has rows, fetch_paginated returns every key of the sorted listing once, in order.
  pub fetch_paginated_all :
      (memory : Memory) (fuel count : ℕ)
      → IsTable table
      → check_namespace_key_validity env p n none (lit "list") ≡ ok tt
      → with_capacity memory count ≡ true
      → length (listing p n table) < fuel
      → length (listing p n table) < count
      → (next : Option PageToken) × (fetch_paginated
            (fetch_keys env p n table)
            keys_and_token
            memory
            fuel
            (some count)
            none
          ≡ some (ok (new_response (map key_of (listing p n table)) next)))
  fetch_paginated_all memory fuel count h valid reserved enough_fuel above =
      let f = fetch_paginated-Fetched memory fuel count h valid reserved enough_fuel in
      elim f.enough [
        | inl many ↦ absurd (
            omega (arith, ap length f.split, length-append f.more f.left, length-map key_of f.more))
        | inr done ↦ (
          f.next,
          f.result
              ∙ ap (λ (m : List Cursor). some (ok (new_response (map key_of m) f.next)))
                  (sym (f.split ∙ ap (λ t. f.more ++ t) done ∙ append-nil f.more)),
        )
      ]
