-- ===== src/Api/ListPayments.antt =====
-- The handlers that list stored payments: list_payments.rs and list_forwarded_payments.rs of
-- ldk-server/src/api, with the namespaces of ldk-server/src/io/persist/mod.rs. The two do the same
-- for different namespaces, messages and messages' types, which are arguments here.
pub mod Laws
use ldk_server.Prelude.{ℕ, Option, none, some, List, [], ◌∷◌, ◌++◌, Result, ok, err, ◌>>=◌, map_err}
use ldk_server.Text.{Text, lit}
use ldk_server.Api.Error.{LdkServerError, new, internal_server_error}
use ldk_server.Storage.Namespace.{IoError, KvEnv}
use ldk_server.Storage.Sqlite.{Row, Engine, Cursor, ListResponse, read, list}

abbrev pub payments_persistence_primary_namespace : Text
payments_persistence_primary_namespace = lit "payments"

abbrev pub payments_persistence_secondary_namespace : Text
payments_persistence_secondary_namespace = []

abbrev pub forwarded_payments_persistence_primary_namespace : Text
forwarded_payments_persistence_primary_namespace = lit "forwarded_payments"

abbrev pub forwarded_payments_persistence_secondary_namespace : Text
forwarded_payments_persistence_secondary_namespace = []

-- Where a handler looks, and how it words its errors.
pub record Listed : Type 0 where
  pub primary_namespace : Text
  pub secondary_namespace : Text
  pub list_failed : Text
  pub read_failed : Text
  pub decode_failed : Text

abbrev pub payments_listed : Listed
payments_listed = record {
  primary_namespace = payments_persistence_primary_namespace;
  secondary_namespace = payments_persistence_secondary_namespace;
  list_failed = lit "Failed to list payments: ";
  read_failed = lit "Failed to read payment data: ";
  decode_failed = lit "Failed to decode payment: ";
}

abbrev pub forwarded_payments_listed : Listed
forwarded_payments_listed = record {
  primary_namespace = forwarded_payments_persistence_primary_namespace;
  secondary_namespace = forwarded_payments_persistence_secondary_namespace;
  list_failed = lit "Failed to list forwarded payments: ";
  read_failed = lit "Failed to read forwarded payment data: ";
  decode_failed = lit "Failed to decode forwarded payment: ";
}

-- `ListPaymentsResponse` and `ListForwardedPaymentsResponse`
pub record ListPaymentsResponse (Payment : Type 0) : Type 0 where
  pub payments : List Payment
  pub next_page_token : Option Cursor

-- `decode` is the decoder that prost generates for the stored message, with its error's text, and
-- `show_io` is the `Display` of `io::Error`.
module _ {Payment : Type 0} (env : KvEnv) (decode : List ℕ → Result Payment Text)
    (show_io : IoError → Text) where
  -- the body of the loop
  unfoldable pub load : Listed → Engine → List Row → Text → Result Payment LdkServerError
  load what engine table key =
      map_err (λ e. new internal_server_error (what.read_failed ++ show_io e))
        (read env engine what.primary_namespace what.secondary_namespace key table)
      >>= λ payment_bytes.
          map_err (λ e. new internal_server_error (what.decode_failed ++ e)) (decode payment_bytes)

  -- the loop, which pushes each payment to the ones before
  unfoldable pub load_all :
      Listed → Engine → List Row → List Payment → List Text → Result (List Payment) LdkServerError
  load_all what engine table payments [] = ok payments
  load_all what engine table payments (key ∷ keys) = load what engine table key >>= λ payment.
      load_all what engine table (payments ++ payment ∷ []) keys

  unfoldable pub handle_list :
      Listed
      → Engine
      → Option Cursor
      → List Row
      → Result (ListPaymentsResponse Payment) LdkServerError
  unfolding load_all load
  handle_list what engine page_token table = do
    list_response ←
        map_err (λ e. new internal_server_error (what.list_failed ++ show_io e))
          (list env engine what.primary_namespace what.secondary_namespace page_token table)
    payments ← load_all what engine table [] list_response.keys
    ok (record { payments = payments; next_page_token = list_response.next_page_token })

  -- `handle_list_payments_request`
  unfoldable pub handle_list_payments_request :
      Engine → Option Cursor → List Row → Result (ListPaymentsResponse Payment) LdkServerError
  unfolding handle_list
  handle_list_payments_request = handle_list payments_listed

  -- `handle_list_forwarded_payments_request`
  unfoldable pub handle_list_forwarded_payments_request :
      Engine → Option Cursor → List Row → Result (ListPaymentsResponse Payment) LdkServerError
  unfolding handle_list
  handle_list_forwarded_payments_request = handle_list forwarded_payments_listed
