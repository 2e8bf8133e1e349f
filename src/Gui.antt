-- ===== src/Gui.antt =====
-- The graphical client: the operations of ldk-server-gui/src/app.rs, the answers that it polls for, and
-- the steps of its loop. What egui draws is left out: a user's action is a step.
pub mod Config
pub mod Form
pub mod State
pub mod Initial
pub mod Requests
pub mod Launch
pub mod Indices
pub mod Flight
pub mod Save
use ldk_server.Prelude.{
  ℕ, Bool, true, false, ◌||◌, Option, none, some, List, [], ◌∷◌, ◌++◌, Result, ok, err, is_some,
  if◌then◌else◌,
}
use ldk_server.Text.{Text, lit, is_empty}
use ldk_server.Files.{Files, Disk, read_file}
use ldk_server.Client.{LdkServerClient}
use ldk_server.Gui.Config.{GuiConfig, GuiEnv, find_and_load_config}
use ldk_server.Gui.Form.{Forms, from_config}
use ldk_server.Gui.State.{
  ConnectionStatus, ActiveTab, Op, all_ops, Request, Response, set_task, AppState, success,
  status_error,
}
use ldk_server.Gui.Initial
use ldk_server.Gui.Launch.{
  App, Entry, answered, with_status, launch, ConnectEnv, connect, disconnect,
}

-- The handlers of `poll_tasks`, of the operations that only keep the answer
abbrev keep : AppState → App → App
keep state app = record app { state = state }

unfoldable pub on_answer : (op : Op) → Response op → App → App
on_answer Op.node_info v app = keep (record app.state { node_info = some v }) app
on_answer Op.balances v app = keep (record app.state { balances = some v }) app
on_answer Op.channels v app = keep (record app.state { channels = some v }) app
on_answer Op.payments v app =
    keep (record app.state { payments_page_token = v.next_page_token; payments = some v }) app
on_answer Op.onchain_receive v app =
    with_status (lit "Address generated") false
      (keep (record app.state { onchain_address = some v.address }) app)
on_answer Op.onchain_send v app = with_status (lit "Sent! TXID: " ++ v.txid) false (
    keep
      (record app.state {
        last_txid = some v.txid;
        forms = record app.state.forms { onchain_send = Initial.onchain_send_form };
      })
      app)
on_answer Op.bolt11_receive v app =
    with_status (lit "Invoice generated") false
      (keep (record app.state { generated_invoice = some v.invoice }) app)
on_answer Op.bolt11_send v app = with_status (lit "Payment sent! ID: " ++ v.payment_id) false (
    keep
      (record app.state {
        last_payment_id = some v.payment_id;
        forms = record app.state.forms { bolt11_send = Initial.bolt11_send_form };
      })
      app)
on_answer Op.bolt12_receive v app =
    with_status (lit "Offer generated") false
      (keep (record app.state { generated_offer = some v.offer }) app)
on_answer Op.bolt12_send v app = with_status (lit "Payment sent! ID: " ++ v.payment_id) false (
    keep
      (record app.state {
        last_payment_id = some v.payment_id;
        forms = record app.state.forms { bolt12_send = Initial.bolt12_send_form };
      })
      app)
on_answer Op.open_channel v app = launch Op.channels (
    with_status (lit "Channel opened! ID: " ++ v.user_channel_id) false (
      keep
        (record app.state {
          last_channel_id = some v.user_channel_id;
          forms = record app.state.forms { open_channel = Initial.open_channel_form };
          show_open_channel_dialog = false;
        })
        app))
on_answer Op.close_channel v app = launch Op.channels (
    with_status (lit "Channel close initiated") false (
      keep
        (record app.state {
          forms = record app.state.forms { close_channel = Initial.close_channel_form };
          show_close_channel_dialog = false;
        })
        app))
on_answer Op.force_close_channel v app = launch Op.channels (
    with_status (lit "Force close initiated") false (
      keep
        (record app.state {
          forms = record app.state.forms { close_channel = Initial.close_channel_form };
          show_close_channel_dialog = false;
        })
        app))
on_answer Op.splice_in v app = launch Op.channels (
    with_status (lit "Splice-in initiated") false (
      keep
        (record app.state {
          forms = record app.state.forms { splice_in = Initial.splice_form };
          show_splice_in_dialog = false;
        })
        app))
on_answer Op.splice_out v app = launch Op.channels (
    with_status (lit "Splice-out initiated to " ++ v.address) false (
      keep
        (record app.state {
          forms = record app.state.forms { splice_out = Initial.splice_form };
          show_splice_out_dialog = false;
        })
        app))
on_answer Op.update_channel_config v app = launch Op.channels (
    with_status (lit "Channel config updated") false (
      keep
        (record app.state {
          forms = record app.state.forms {
            update_channel_config = Initial.update_channel_config_form;
          };
          show_update_config_dialog = false;
        })
        app))
on_answer Op.connect_peer v app = with_status (lit "Peer connected successfully") false (
    keep
      (record app.state {
        forms = record app.state.forms { connect_peer = Initial.connect_peer_form };
        show_connect_peer_dialog = false;
      })
      app)

-- What `try_take` gives for each task.
abbrev pub Answers : Type 0
Answers = (op : Op) → Option (Result (Response op) Text)

-- The task is taken away.
abbrev pub cleared : Op → App → App
cleared op app = record {
  state = record app.state { tasks = set_task op none app.state.tasks };
  log = answered op ∷ app.log;
}

-- The macro `poll_task!`, on the task and what it gives.
abbrev pub take_answer :
    (op : Op) → Option LdkServerClient → Option (Result (Response op) Text) → App → App
take_answer op none answer app = app
take_answer op (some task) none app = app
take_answer op (some task) (some (ok v)) app = on_answer op v (cleared op app)
take_answer op (some task) (some (err e)) app = with_status e true (cleared op app)

unfoldable pub poll_task : Answers → Op → App → App
poll_task answers op app = take_answer op (app.state.tasks op) (answers op) app

unfoldable pub poll_all : Answers → List Op → App → App
poll_all answers [] app = app
poll_all answers (op ∷ ops) app = poll_all answers ops (poll_task answers op app)

unfoldable pub poll_tasks : Answers → App → App
poll_tasks answers app = poll_all answers all_ops app

-- `LdkServerApp::new`
unfoldable pub new_app : Option GuiConfig → App
new_app none = record { state = Initial.initial; log = [] }
new_app (some gui_config) = record {
  state = record Initial.initial {
    server_url = gui_config.server_url;
    api_key = gui_config.api_key;
    tls_cert_path = gui_config.tls_cert_path;
    network = gui_config.network;
    forms = record Initial.forms { chain_source = from_config gui_config.chain_source };
    chain_source = gui_config.chain_source;
    status_message = some (success (lit "Config loaded from ldk-server-config.toml"));
  };
  log = [];
}

-- What a user does, or a frame: the operations, connecting, typing, another tab, and polling.
pub data Action : Type 0 where
  click : Op → Action
  connects : ConnectEnv → Files → Action
  disconnects : Action
  types : (server_url api_key tls_cert_path : Text) → Forms → Action
  opens : ActiveTab → Action
  frame : Answers → Action

unfoldable pub act : App → Action → App
act app (click op) = launch op app
act app (connects env fs) = connect env fs app
act app disconnects = disconnect app
act app (types server_url api_key tls_cert_path forms) =
    keep
      (record app.state {
        server_url = server_url;
        api_key = api_key;
        tls_cert_path = tls_cert_path;
        forms = forms;
      })
      app
act app (opens tab) = keep (record app.state { active_tab = tab }) app
act app (frame answers) = poll_tasks answers app

unfoldable pub act_all : App → List Action → App
act_all app [] = app
act_all app (a ∷ actions) = act_all (act app a) actions
