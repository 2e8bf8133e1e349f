-- ===== src/Gui/Launch.antt =====
-- Sending a request, connecting and disconnecting, for ldk-server-gui/src/app.rs.
use ldk_server.Prelude.{
  Bool, true, false, ◌||◌, Option, none, some, List, ◌∷◌, ◌++◌, Result, ok, err, if◌then◌else◌,
}
use ldk_server.Text.{Text, lit, is_empty}
use ldk_server.Text.Trim.{trim}
use ldk_server.Storage.Namespace.{IoError}
use ldk_server.Files.{Files, Disk, read_file}
use ldk_server.Client.{LdkServerClient}
use ldk_server.Gui.State.{ConnectionStatus, Op, Request, set_task, AppState}
use ldk_server.Gui.Requests.{request}

-- A request that has been sent, or an answer that has been taken.
pub data Entry : Type 0 where
  sent : (op : Op) → LdkServerClient → Request op → Entry
  answered : Op → Entry

-- The client's state, and what has passed between it and the server, the latest first.
pub record App : Type 0 where
  pub state : AppState
  pub log : List Entry

abbrev pub with_status : Text → Bool → App → App
with_status text is_error app = record app {
  state = record app.state { status_message = some (record { text = text; is_error = is_error }) };
}

-- The pattern of the operations, on the task, the client and the request: nothing while a task of the
-- same operation waits, or without a client; otherwise the request, or the reason why there is none.
abbrev pub launch_with :
    (op : Op)
    → Option LdkServerClient
    → Option LdkServerClient
    → Result (Request op) Text
    → App
    → App
launch_with op (some task) client r app = app
launch_with op none none r app = app
launch_with op none (some client) (err message) app = with_status message true app
launch_with op none (some client) (ok r) app = record {
  state = record app.state { tasks = set_task op (some client) app.state.tasks };
  log = sent op client r ∷ app.log;
}

unfoldable pub launch : Op → App → App
launch op app = launch_with op (app.state.tasks op) app.state.client (request op app.state) app

-- Connecting: the disk, how an error is printed, and `LdkServerClient::new`.
pub record ConnectEnv : Type 0 where
  pub disk : Disk
  pub show_error : IoError → Text
  pub new_client : Text → Text → Text → Result LdkServerClient Text

module _ (env : ConnectEnv) where
  -- the match on the new client
  unfoldable pub connected : Result LdkServerClient Text → App → App
  connected (err e) app =
      with_status e true
        (record app { state = record app.state { connection_status = ConnectionStatus.error e } })
  connected (ok client) app = launch Op.channels (
      launch Op.balances (
        launch Op.node_info (
          with_status (lit "Connected") false (record app {
            state = record app.state {
              client = some client;
              connection_status = ConnectionStatus.connected;
            };
          }))))

  -- the match on the certificate
  abbrev pub with_cert : Result Text IoError → Text → App → App
  with_cert (err e) url app =
      with_status (lit "Failed to read TLS cert: " ++ env.show_error e) true app
  with_cert (ok cert_data) url app = connected (env.new_client url app.state.api_key cert_data) app

  -- `connect`, of a native build
  unfoldable pub connect : Files → App → App
  connect fs app =
      let url = trim app.state.server_url in
      let cert_path = trim app.state.tls_cert_path in
      if is_empty url || is_empty app.state.api_key || is_empty cert_path
      then with_status (lit "Please fill in all connection fields") true app
      else with_cert (read_file env.disk cert_path fs) url app

unfoldable pub disconnect : App → App
disconnect app = with_status (lit "Disconnected") false (record app {
  state = record app.state {
    client = none;
    connection_status = ConnectionStatus.disconnected;
    node_info = none;
    balances = none;
    channels = none;
    payments = none;
  };
})
