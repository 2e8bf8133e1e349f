-- ===== src/Cli/Paging/Complete.antt =====
-- Paging through the storage: what `fetch_paginated` collects, and that it ends.
use mathlib.Core.List.{map-append}
use ldk_server.Prelude.{
  ℕ, zero, suc, ◌≤◌, ◌<◌, ◌≡◌, refl, sym, ap, ◌∙◌, ◌⊎◌, inl, inr, Bool, true, false, not, ◌||◌,
  Option, none, some, List, [], ◌∷◌, ◌++◌, map, append_assoc, Result, ok, arith, opt_map, is_some,
  leb, leb→le, length, take, drop, take-append-drop, length-drop-le, last?, last?-cons, Bool-cases,
  if◌then◌else◌,
}
use ldk_server.Text.{Text}
use ldk_server.Storage.Sqlite.{Cursor, ListResponse, list_keys_max_page_size}
use ldk_server.Storage.Sqlite.Pages.{key_of, first_page, keys-list_response, next-list_response}
use ldk_server.Cli.Paging.{PageToken, CliPaginatedResponse, new_response, fetch_loop}

-- The conversions of the handlers in list_payments.rs and list_forwarded_payments.rs.
abbrev pub to_token : Cursor → PageToken
to_token c = record { token = c.0; index = c.1 }

abbrev pub of_token : PageToken → Cursor
of_token t = (t.token, t.index)

abbrev pub keys_and_token : ListResponse → List Text × Option PageToken
keys_and_token r = (r.keys, opt_map to_token r.next_page_token)

if_or_true : {A : Type 0} (b : Bool) (x y : A) → (if b || true then x else y) ≡ x
if_or_true true x y = refl
if_or_true false x y = refl

module _ {E : Type 0} (fetch : Option PageToken → Result ListResponse E) where
  -- What a run of the loop did with the listing's `rest`: it took `more` of it and left `left`.
  -- It stopped because there was enough or because nothing was left, and where it hands back a
  -- token, the page behind that token is the one that `left` begins with.
  pub record Fetched (count : ℕ) (items : List Text) (rest : List Cursor)
      (out : Option (Result (CliPaginatedResponse Text) E)) : Type 0 where
    pub more : List Cursor
    pub left : List Cursor
    pub next : Option PageToken
    pub result : out ≡ some (ok (new_response (items ++ map key_of more) next))
    pub split : rest ≡ more ++ left
    pub enough : (count ≤ length (items ++ map key_of more)) ⊎ (left ≡ [])
    pub resume : ((next ≡ none) × (left ≡ [])) ⊎ (fetch next ≡ ok (first_page left))

  fetch_loop-page :
      (f count : ℕ) (items : List Text) (token : Option PageToken) (rest : List Cursor)
      → fetch token ≡ ok (first_page rest)
      → fetch_loop fetch keys_and_token (suc f) count items token ≡ (
          let page = take list_keys_max_page_size rest in
          let items' = items ++ map key_of page in
          let next = opt_map to_token (last? page) in
          if leb count (length items') || not (is_some next)
          then some (ok (new_response items' next))
          else fetch_loop fetch keys_and_token f count items' next)
  unfolding fetch_loop
  fetch_loop-page f count items token rest e =
      rw (e, fetch_loop)
        (rw (keys-list_response (take list_keys_max_page_size rest))
          (rw (next-list_response (take list_keys_max_page_size rest))))

  module _ (f count : ℕ) (items : List Text) (token : Option PageToken) (rest : List Cursor)
      (e : fetch token ≡ ok (first_page rest)) where
    fetch_loop-end :
        last? (take list_keys_max_page_size rest) ≡ none
        → fetch_loop fetch keys_and_token (suc f) count items token
          ≡ some (ok (new_response (items ++ map key_of (take list_keys_max_page_size rest)) none))
    fetch_loop-end l =
        fetch_loop-page f count items token rest e
        ∙ rw l (
            if_or_true
              (leb count (length (items ++ map key_of (take list_keys_max_page_size rest)))) _ _)

    fetch_loop-stop :
        (c : Cursor)
        → last? (take list_keys_max_page_size rest) ≡ some c
        → leb count (length (items ++ map key_of (take list_keys_max_page_size rest))) ≡ true
        → fetch_loop fetch keys_and_token (suc f) count items token
          ≡ some (
              ok (
                new_response
                  (items ++ map key_of (take list_keys_max_page_size rest))
                  (some (to_token c))))
    fetch_loop-stop c l b = fetch_loop-page f count items token rest e ∙ rw l (rw b)

    fetch_loop-go :
        (c : Cursor)
        → last? (take list_keys_max_page_size rest) ≡ some c
        → leb count (length (items ++ map key_of (take list_keys_max_page_size rest))) ≡ false
        → fetch_loop fetch keys_and_token (suc f) count items token
          ≡ fetch_loop fetch keys_and_token f count
              (items ++ map key_of (take list_keys_max_page_size rest))
              (some (to_token c))
    fetch_loop-go c l b = fetch_loop-page f count items token rest e ∙ rw l (rw b)

  -- What a run from the next page did, seen from before the page.
  Fetched-page :
      (count : ℕ) (items : List Text) (page rest' : List Cursor)
      (out : Option (Result (CliPaginatedResponse Text) E))
      → Fetched count (items ++ map key_of page) rest' out
      → Fetched count items (page ++ rest') out
  Fetched-page count items page rest' out g =
      let regroup : items ++ map key_of (page ++ g.more)
          ≡ (items ++ map key_of page) ++ map key_of g.more =
        ap (λ t. items ++ t) (map-append key_of page g.more)
        ∙ sym (append_assoc items (map key_of page) (map key_of g.more)) in
      record {
        more = page ++ g.more;
        left = g.left;
        next = g.next;
        result = g.result ∙ ap (λ (t : List Text). some (ok (new_response t g.next))) (sym regroup);
        split = ap (λ t. page ++ t) g.split ∙ sym (append_assoc page g.more g.left);
        enough = rw regroup g.enough;
        resume = g.resume;
      }

  module _ (all : List Cursor)
      (continues : (pre : List Cursor) (c : Cursor) (rest : List Cursor)
        → all ≡ pre ++ c ∷ rest
        → fetch (some (to_token c)) ≡ ok (first_page rest)) where
    pub fetch_loop-Fetched :
        (f count : ℕ) (items : List Text) (token : Option PageToken) (seen rest : List Cursor)
        → all ≡ seen ++ rest
        → fetch token ≡ ok (first_page rest)
        → length rest < f
        → Fetched count items rest (fetch_loop fetch keys_and_token f count items token)
    fetch_loop-Fetched zero count items token seen rest a e l = elim l [ ]
    fetch_loop-Fetched (suc f) count items token seen [] a e l = record {
      more = [];
      left = [];
      next = none;
      result = fetch_loop-end f count items token [] e refl;
      split = refl;
      enough = inr refl;
      resume = inl (refl, refl);
    }
    fetch_loop-Fetched (suc f) count items token seen (x ∷ xs) a e l =
        let page = x ∷ take 99 xs in
        let rest' = drop 99 xs in
        let (init, c, snoc, last) = last?-cons x (take 99 xs) in
        let whole : x ∷ xs ≡ page ++ rest' = sym (take-append-drop 100 (x ∷ xs)) in
        let behind = continues (seen ++ init) c rest' (
          a
          ∙ cc (
            whole,
            snoc,
            append_assoc init (c ∷ []) rest',
            append_assoc seen init (c ∷ rest'),
          )) in
        elim (Bool-cases (leb count (length (items ++ map key_of page)))) [
          | inl stop ↦ record {
            more = page;
            left = rest';
            next = some (to_token c);
            result = fetch_loop-stop f count items token (x ∷ xs) e c last stop;
            split = whole;
            enough = inl (leb→le _ _ stop);
            resume = inr behind;
          }
          | inr go ↦
              let ih =
                fetch_loop-Fetched f count (items ++ map key_of page) (some (to_token c))
                  (seen ++ page) rest' (a ∙ cc (whole, append_assoc seen page rest')) behind
                  (omega (arith, length-drop-le 99 xs)) in
              rw (fetch_loop-go f count items token (x ∷ xs) e c last go)
                (rw whole (Fetched-page count items page rest' _ ih))
        ]
