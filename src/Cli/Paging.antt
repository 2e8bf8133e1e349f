-- ===== src/Cli/Paging.antt =====
-- `fetch_paginated` and `parse_page_token` of ldk-server-cli/src/main.rs, and `format_page_token`
-- and `CliPaginatedResponse` of ldk-server-cli/src/types.rs.
pub mod Tokens
pub mod Complete
pub mod Store
use ldk_server.Prelude.{
  ℕ, zero, suc, ◌*◌, ◌^◌, ◌-◌, ◌==◌, ◌&&◌, Bool, true, false, not, ◌||◌, Option, none, some, List,
  [], ◌∷◌, ◌++◌, Result, ok, err, ◌>>=◌, ok_or, opt_map, is_some, leb, length, if◌then◌else◌,
}
use ldk_server.Prelude.Int.{ℤ}
use ldk_server.Text.{Text, lit}
use ldk_server.Text.Decimal.{show_int, parse_i64}
use ldk_server.Text.Split.{split}
use ldk_server.Client.{LdkServerError, LdkServerErrorCode}

-- `PageToken` of ldk-server-protos; the index is an `i64`.
pub record PageToken : Type 0 where
  pub token : Text
  pub index : ℤ

abbrev internal_error : Text → LdkServerError
internal_error m = record { error_code = LdkServerErrorCode.internal_error; message = m }

-- `format_page_token`
unfoldable pub format_page_token : PageToken → Text
format_page_token t = t.token ++ (b':' ∷ show_int t.index)

-- The test `parts.len() != 2`, and the rest of `parse_page_token`.
from_parts : List Text → Result PageToken LdkServerError
from_parts (token ∷ index_str ∷ []) = do
  index ← ok_or (parse_i64 index_str) (internal_error (lit "Invalid page token index"))
  ok (record { token = token; index = index })
from_parts _ = err (internal_error (lit "Page token must be in format 'token:index'"))

-- `parse_page_token`
unfoldable pub parse_page_token : Text → Result PageToken LdkServerError
unfolding from_parts
parse_page_token token_str = from_parts (split b':' token_str)

-- `CliPaginatedResponse`, and its `new`
pub record CliPaginatedResponse (T : Type 0) : Type 0 where
  pub list : List T
  pub next_page_token : Option Text

abbrev pub new_response : {T : Type 0} → List T → Option PageToken → CliPaginatedResponse T
new_response list next_page_token = record {
  list = list;
  next_page_token = opt_map format_page_token next_page_token;
}

-- The memory of a 64-bit target: the size of an item, and whether so many bytes can be allocated.
pub record Memory : Type 0 where
  pub item_size : ℕ
  pub allocates : ℕ → Bool

-- `isize::MAX`
abbrev pub isize_max : ℕ
isize_max = 2 ^ 63 - 1

-- `Vec::with_capacity` returns; it panics on an overflow of the capacity, and aborts without memory.
unfoldable pub with_capacity : Memory → ℕ → Bool
with_capacity memory capacity =
    let bytes = capacity * memory.item_size in
    bytes == 0 || leb bytes isize_max && memory.allocates bytes

module _ {T R E : Type 0} (fetch_page : Option PageToken → Result R E)
    (extract : R → List T × Option PageToken) where
  -- The loop of `fetch_paginated`, with fuel: none if it runs out. The pages are those of a server
  -- whose data does not change in between.
  pub fetch_loop : ℕ → ℕ → List T → Option PageToken → Option (Result (CliPaginatedResponse T) E)
  fetch_loop zero count items page_token = none
  fetch_loop (suc fuel) count items page_token = elim (fetch_page page_token) [
    | err e ↦ some (err e)
    | ok response ↦
        let (new_items, next_page_token) = extract response in
        let items' = items ++ new_items in
        let rest = fetch_loop fuel count items' next_page_token in
        if leb count (length items') || not (is_some next_page_token)
        then some (ok (new_response items' next_page_token))
        else rest
  ]

  -- `fetch_paginated`: none if the items cannot be reserved, or the fuel runs out.
  unfoldable pub fetch_paginated :
      Memory → ℕ → Option ℕ → Option PageToken → Option (Result (CliPaginatedResponse T) E)
  unfolding fetch_loop
  fetch_paginated memory fuel (some count) initial_page_token =
      if with_capacity memory count then fetch_loop fuel count [] initial_page_token else none
  fetch_paginated memory fuel none initial_page_token = some (do
    response ← fetch_page initial_page_token
    let (items, next_page_token) = extract response
    ok (new_response items next_page_token))
