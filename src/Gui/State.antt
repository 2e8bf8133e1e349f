-- ===== src/Gui/State.antt =====
-- ldk-server-gui/src/state.rs: the state of the graphical client. The time of a status message is left
-- out; nothing reads it.
use ldk_server.Prelude.{
  ℕ, Bool, true, false, ◌||◌, Option, none, List, [], ◌∷◌, is_some, if◌then◌else◌, ◌==◌,
}
use ldk_server.Text.{Text}
use ldk_server.Client.{LdkServerClient}
use ldk_server.Cli.Paging.{PageToken}
use ldk_server.Payment.{Payment}
use ldk_server.Api.Channels.{
  CloseChannelRequest, ForceCloseChannelRequest, SpliceInRequest, SpliceOutRequest,
  OpenChannelRequest, UpdateChannelConfigRequest, ConnectPeerRequest,
}
use ldk_server.Api.PaymentArgs.{
  OnchainSendRequest, Bolt11ReceiveRequest, Bolt11SendRequest, Bolt12ReceiveRequest,
  Bolt12SendRequest,
}
use ldk_server.Proto.Responses.{
  OnchainReceiveResponse, OnchainSendResponse, Bolt11ReceiveResponse, Bolt11SendResponse,
  Bolt12ReceiveResponse, Bolt12SendResponse, OpenChannelResponse, SpliceOutResponse,
}
use ldk_server.Query.{GetNodeInfoResponse, GetBalancesResponse, ListChannelsResponse}
use ldk_server.Gui.Config.{ChainSourceConfig}
use ldk_server.Gui.Form.{Forms}

pub data ConnectionStatus : Type 0 where
  disconnected connected : ConnectionStatus
  error : Text → ConnectionStatus

pub data ActiveTab : Type 0 where
  node_info balances channels payments lightning onchain : ActiveTab

pub data LightningTab : Type 0 where
  bolt11_send bolt11_receive bolt12_send bolt12_receive : LightningTab

pub data OnchainTab : Type 0 where
  send receive history : OnchainTab

pub record StatusMessage : Type 0 where
  pub text : Text
  pub is_error : Bool

abbrev pub success : Text → StatusMessage
success text = record { text = text; is_error = false }

abbrev pub status_error : Text → StatusMessage
status_error text = record { text = text; is_error = true }

-- The operations with a task: the fields of `AsyncTasks`, in its order.
pub data Op : Type 0 where
  node_info balances channels payments onchain_receive onchain_send bolt11_receive bolt11_send : Op
  bolt12_receive bolt12_send open_channel close_channel force_close_channel splice_in splice_out :
      Op
  update_channel_config connect_peer : Op

abbrev pub all_ops : List Op
all_ops =
    Op.node_info ∷ Op.balances ∷ Op.channels ∷ Op.payments ∷ Op.onchain_receive ∷ Op.onchain_send
    ∷ Op.bolt11_receive ∷ Op.bolt11_send ∷ Op.bolt12_receive ∷ Op.bolt12_send ∷ Op.open_channel
    ∷ Op.close_channel ∷ Op.force_close_channel ∷ Op.splice_in ∷ Op.splice_out
    ∷ Op.update_channel_config ∷ Op.connect_peer ∷ []

abbrev pub op_index : Op → ℕ
op_index Op.node_info = 0
op_index Op.balances = 1
op_index Op.channels = 2
op_index Op.payments = 3
op_index Op.onchain_receive = 4
op_index Op.onchain_send = 5
op_index Op.bolt11_receive = 6
op_index Op.bolt11_send = 7
op_index Op.bolt12_receive = 8
op_index Op.bolt12_send = 9
op_index Op.open_channel = 10
op_index Op.close_channel = 11
op_index Op.force_close_channel = 12
op_index Op.splice_in = 13
op_index Op.splice_out = 14
op_index Op.update_channel_config = 15
op_index Op.connect_peer = 16

abbrev pub op_eq : Op → Op → Bool
op_eq a b = op_index a == op_index b

-- The request and the answer of each operation.
abbrev pub Request : Op → Type 0
Request Op.node_info = Unit
Request Op.balances = Unit
Request Op.channels = Unit
Request Op.payments = Option PageToken
Request Op.onchain_receive = Unit
Request Op.onchain_send = OnchainSendRequest
Request Op.bolt11_receive = Bolt11ReceiveRequest
Request Op.bolt11_send = Bolt11SendRequest
Request Op.bolt12_receive = Bolt12ReceiveRequest
Request Op.bolt12_send = Bolt12SendRequest
Request Op.open_channel = OpenChannelRequest
Request Op.close_channel = CloseChannelRequest
Request Op.force_close_channel = ForceCloseChannelRequest
Request Op.splice_in = SpliceInRequest
Request Op.splice_out = SpliceOutRequest
Request Op.update_channel_config = UpdateChannelConfigRequest
Request Op.connect_peer = ConnectPeerRequest

-- The page of payments that an answer holds, with the token of the next page.
pub record PaymentsPage : Type 0 where
  pub payments : List Payment
  pub next_page_token : Option PageToken

abbrev pub Response : Op → Type 0
Response Op.node_info = GetNodeInfoResponse
Response Op.balances = GetBalancesResponse
Response Op.channels = ListChannelsResponse
Response Op.payments = PaymentsPage
Response Op.onchain_receive = OnchainReceiveResponse
Response Op.onchain_send = OnchainSendResponse
Response Op.bolt11_receive = Bolt11ReceiveResponse
Response Op.bolt11_send = Bolt11SendResponse
Response Op.bolt12_receive = Bolt12ReceiveResponse
Response Op.bolt12_send = Bolt12SendResponse
Response Op.open_channel = OpenChannelResponse
Response Op.close_channel = Unit
Response Op.force_close_channel = Unit
Response Op.splice_in = Unit
Response Op.splice_out = SpliceOutResponse
Response Op.update_channel_config = Unit
Response Op.connect_peer = Unit

-- `AsyncTasks`: the operations that wait for an answer, each with the client that it was sent by.
abbrev pub AsyncTasks : Type 0
AsyncTasks = Op → Option LdkServerClient

abbrev pub no_tasks : AsyncTasks
no_tasks = λ op. none

abbrev pub set_task : Op → Option LdkServerClient → AsyncTasks → AsyncTasks
set_task op task tasks = λ o. if op_eq op o then task else tasks o

-- One of the tasks of the list waits.
abbrev pub any_of : List Op → AsyncTasks → Bool
any_of [] tasks = false
any_of (op ∷ ops) tasks = is_some (tasks op) || any_of ops tasks

unfoldable pub any_pending : AsyncTasks → Bool
any_pending tasks = any_of all_ops tasks

pub record AppState : Type 0 where
  pub server_url : Text
  pub api_key : Text
  pub tls_cert_path : Text
  pub connection_status : ConnectionStatus
  pub client : Option LdkServerClient
  pub config_file_path : Option Text
  pub network : Text
  pub chain_source : ChainSourceConfig
  pub active_tab : ActiveTab
  pub node_info : Option GetNodeInfoResponse
  pub balances : Option GetBalancesResponse
  pub channels : Option ListChannelsResponse
  pub payments : Option PaymentsPage
  pub payments_page_token : Option PageToken
  pub onchain_address : Option Text
  pub generated_invoice : Option Text
  pub generated_offer : Option Text
  pub last_payment_id : Option Text
  pub last_txid : Option Text
  pub last_channel_id : Option Text
  pub tasks : AsyncTasks
  pub forms : Forms
  pub status_message : Option StatusMessage
  pub show_open_channel_dialog : Bool
  pub show_close_channel_dialog : Bool
  pub show_splice_in_dialog : Bool
  pub show_splice_out_dialog : Bool
  pub show_update_config_dialog : Bool
  pub show_connect_peer_dialog : Bool
  pub show_load_config_dialog : Bool
  pub config_paste_text : Text
  pub lightning_tab : LightningTab
  pub onchain_tab : OnchainTab
