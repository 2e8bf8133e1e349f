-- ===== src/Cli/Paging/Tokens.antt =====
-- Page tokens survive printing and parsing.
use ldk_server.Prelude.{suc, ◌-◌, ◌^◌, ◌≡◌, true, ok, not, ◌==◌, arith}
use ldk_server.Prelude.Int.{ℤ, pos, negsuc, ◌≤ℤ◌, i64_max}
use ldk_server.Text.Decimal.{show_int}
use ldk_server.Text.Decimal.Laws.{parse_i64-show_int, all-show_nat}
use ldk_server.Text.Split.{lacks, split-append, split-lacks}
use ldk_server.Cli.Paging.{PageToken, format_page_token, parse_page_token}

show_int-lacks : (z : ℤ) → lacks b':' (show_int z) ≡ true
unfolding show_int
show_int-lacks (pos n) = all-show_nat (λ c. not (c == b':')) n (λ c d. ground arith)
show_int-lacks (negsuc n) = all-show_nat (λ c. not (c == b':')) (suc n) (λ c d. ground arith)

-- A page token whose key has no colon and whose index is an i64 is parsed back as it was formatted.
pub parse_page_token-format :
    (t : PageToken)
    → lacks b':' t.token ≡ true
    → negsuc (2 ^ 63 - 1) ≤ℤ t.index
    → t.index ≤ℤ i64_max
    → parse_page_token (format_page_token t) ≡ ok t
unfolding parse_page_token format_page_token
parse_page_token-format t free low high = rw (split-append b':' t.token (show_int t.index) free) (
    rw (split-lacks b':' (show_int t.index) (show_int-lacks t.index))
      (rw (parse_i64-show_int t.index low high)))
