-- ===== src/Api/ListPayments/Laws.antt =====
-- What a listing of payments answers.
use ldk_server.Prelude.{
  ℕ, ◌≡◌, refl, ◌∙◌, ap, Option, none, some, List, [], ◌∷◌, ◌++◌, map, Result, ok, to_option, inl,
  inr, Result-cases, >>=-eq-ok, opt_bind, append_assoc, append-nil, ◌↔◌, take, last?,
}
use ldk_server.Text.{Text, lit}
use ldk_server.Storage.Namespace.{IoError, KvEnv, check_namespace_key_validity}
use ldk_server.Storage.Sqlite.{
  Row, Engine, works, Cursor, ListResponse, read, list, list_keys_max_page_size, list_response,
}
use ldk_server.Storage.Sqlite.Table.{IsTable}
use ldk_server.Storage.Sqlite.Pages.{
  listing, key_of, list-first, keys-list_response, next-list_response,
}
use ldk_server.Api.ListPayments.{
  Listed, load, load_all, handle_list, payments_listed, payments_persistence_primary_namespace,
  payments_persistence_secondary_namespace, handle_list_payments_request,
}

module _ {Payment : Type 0} (env : KvEnv) (decode : List ℕ → Result Payment Text)
    (show_io : IoError → Text) where
  -- The stored bytes of a key, decoded.
  abbrev pub decoded_at : Listed → Engine → List Row → Text → Option Payment
  decoded_at what engine table key =
      opt_bind
        (to_option (read env engine what.primary_namespace what.secondary_namespace key table))
        (λ bytes. to_option (decode bytes))

  load-eq_ok :
      (what : Listed) (engine : Engine) (table : List Row) (key : Text) (p : Payment)
      → load env decode show_io what engine table key ≡ ok p
      → decoded_at what engine table key ≡ some p
  unfolding load
  load-eq_ok what engine table key p h =
      elim (Result-cases
        (read env engine what.primary_namespace what.secondary_namespace key table)) [
          | inr (e, bad) ↦ cc (rw (bad) at h)
          | inl (bytes, good) ↦ elim (Result-cases (decode bytes)) [
            | inr (e, bad) ↦ cc (rw (good, bad) at h)
            | inl (q, fine) ↦ rw (good) (rw (fine) (cc (rw (good, fine) at h)))
          ]
        ]

  load-stored :
      (what : Listed) (engine : Engine) (table : List Row) (key : Text) (p : Payment)
      → decoded_at what engine table key ≡ some p
      → load env decode show_io what engine table key ≡ ok p
  unfolding load
  load-stored what engine table key p h =
      elim (Result-cases
        (read env engine what.primary_namespace what.secondary_namespace key table)) [
          | inr (e, bad) ↦ cc (rw (bad) at h)
          | inl (bytes, good) ↦ elim (Result-cases (decode bytes)) [
            | inr (e, bad) ↦ cc (rw (good, bad) at h)
            | inl (q, fine) ↦ rw (good) (rw (fine) (cc (rw (good, fine) at h)))
          ]
        ]

  load_all-eq_ok :
      (what : Listed) (engine : Engine) (table : List Row) (before : List Payment)
      (keys : List Text) (payments : List Payment)
      → load_all env decode show_io what engine table before keys ≡ ok payments
      → (loaded : List Payment) × (payments ≡ before ++ loaded)
        × (map (decoded_at what engine table) keys ≡ map some loaded)
  unfolding load_all
  load_all-eq_ok what engine table before [] payments h = ([], rw append-nil (cc), refl)
  load_all-eq_ok what engine table before (key ∷ keys) payments h =
      let (p, first, rest) = >>=-eq-ok (load env decode show_io what engine table key) _ h in
      let (loaded, split, each) =
        load_all-eq_ok what engine table (before ++ p ∷ []) keys payments rest in
      (
        p ∷ loaded,
        split ∙ append_assoc before (p ∷ []) loaded,
        cc (load-eq_ok what engine table key p first, each),
      )

  load_all-stored :
      (what : Listed) (engine : Engine) (table : List Row) (before : List Payment)
      (keys : List Text) (payments : List Payment)
      → map (decoded_at what engine table) keys ≡ map some payments
      → load_all env decode show_io what engine table before keys ≡ ok (before ++ payments)
  unfolding load_all
  load_all-stored what engine table before [] [] h = rw append-nil refl
  load_all-stored what engine table before [] (p ∷ payments) h = cc
  load_all-stored what engine table before (key ∷ keys) [] h = cc
  load_all-stored what engine table before (key ∷ keys) (p ∷ payments) h =
      rw (load-stored what engine table key p cc) (
        load_all-stored what engine table (before ++ p ∷ []) keys payments (cc)
        ∙ ap (λ l. ok l) (append_assoc before (p ∷ []) payments))

  -- Where the storage lists a page, a listing of payments answers with given payments and the page's
  -- token exactly if every key of the page can be read and decoded and these are the decoded values,
  -- in the page's order.
  pub handle_list_iff :
      (what : Listed) (engine : Engine) (token : Option Cursor) (table : List Row)
      (page : ListResponse) (payments : List Payment)
      → list env engine what.primary_namespace what.secondary_namespace token table ≡ ok page
      → (handle_list env decode show_io what engine token table
          ≡ ok (record { payments = payments; next_page_token = page.next_page_token }))
        ↔ (map (decoded_at what engine table) page.keys ≡ map some payments)
  unfolding handle_list
  handle_list_iff what engine token table page payments h = (
    (λ e.
        let (l, first, same) =
          >>=-eq-ok (load_all env decode show_io what engine table [] page.keys) _ (rw h at e) in
        let (loaded, all, each) = load_all-eq_ok what engine table [] page.keys l first in cc),
    (λ e. rw h (rw (load_all-stored what engine table [] page.keys payments e) refl)),
  )

  -- For a well-formed table and no token, if the store accepts the payments' namespace and the keys
  -- of the latest hundred payments of the sorted listing can be read and decoded,
  -- handle_list_payments_request answers with the decoded payments in that order and with the last
  -- of these rows as the next token.
  pub list_payments-first :
      (table : List Row) (payments : List Payment)
      → IsTable table
      → check_namespace_key_validity env payments_persistence_primary_namespace
          payments_persistence_secondary_namespace none
          (lit "list")
        ≡ ok tt
      → map (decoded_at payments_listed works table) (
          map key_of (
            take list_keys_max_page_size (
              listing payments_persistence_primary_namespace
                payments_persistence_secondary_namespace table)))
        ≡ map some payments
      → handle_list_payments_request env decode show_io works none table
        ≡ ok (record {
          payments = payments;
          next_page_token = last? (
              take list_keys_max_page_size (
                listing payments_persistence_primary_namespace
                  payments_persistence_secondary_namespace table));
        })
  unfolding handle_list_payments_request
  list_payments-first table payments t valid decoded =
      let rows = take list_keys_max_page_size (
        listing payments_persistence_primary_namespace payments_persistence_secondary_namespace
          table) in
      let (_, answers) =
        handle_list_iff payments_listed works none table (list_response rows) payments (
          list-first env payments_persistence_primary_namespace
            payments_persistence_secondary_namespace table t valid) in
      answers
        (ap (map (decoded_at payments_listed works table)) (keys-list_response rows) ∙ decoded)
      ∙ ap (λ o. ok (record { payments = payments; next_page_token = o })) (next-list_response rows)
