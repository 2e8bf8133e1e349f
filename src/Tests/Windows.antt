-- ===== src/Tests/Windows.antt =====
-- A session with the window, a saved chain source, a broker, and an event.
use ldk_server.Prelude.{
  ℕ, ◌+◌, ◌≡◌, refl, true, false, Bool, Option, none, some, List, [], ◌∷◌, ◌++◌, ok, err,
  if◌then◌else◌,
}
use ldk_server.Text.{Text, lit, text_eq}
use ldk_server.Storage.Namespace.{check_namespace_key_validity}
use ldk_server.Storage.Sqlite.{works}
use ldk_server.Payment.Convert.{payment_to_proto}
use ldk_server.Events.{Event, World, handle_event}
use ldk_server.Events.Progress.{handle_event-Told}
use ldk_server.Events.RabbitMq.{RabbitMqConfig, ack, Lapin, Session, publish}
use ldk_server.Events.RabbitMq.Acked.{Outcome, publish-Outcome}
use ldk_server.Gui.State.{Op}
use ldk_server.Gui.Launch.{ConnectEnv}
use ldk_server.Gui.{Action, click, connects, types, frame, act_all, new_app}
use ldk_server.Gui.Initial
use ldk_server.Gui.Flight.{count_sent, count_answered, in_flight, act_all-in_flight}
use ldk_server.Gui.Config.{ChainSourceConfig, TomlDoc, add_source, replace_source}
use ldk_server.Gui.Save.{TomlLaws, Replaced, replace_source-Replaced}
use ldk_server.Tests.Certificates.{sound_disk}
use ldk_server.Tests.Launches.{one_file}
use ldk_server.Tests.Daemon.{daemon, details, before_event}

-- A user fills in the fields, connects, and asks twice for the balances before an answer comes.
abbrev window_env : ConnectEnv
window_env = record {
  disk = sound_disk;
  show_error = λ e. [];
  new_client = λ url key cert. ok (record { base_url = url; api_key = key });
}

abbrev session : List Action
session =
    types (lit "h:1") (lit "k") (lit "c") Initial.forms
    ∷ connects window_env one_file
    ∷ click Op.balances
    ∷ frame (λ op. some (err (lit "gone")))
    ∷ click Op.balances
    ∷ click Op.balances
    ∷ []

act_all-in_flight_example :
    let app = act_all (new_app none) session in
    count_sent Op.balances app.log
    ≡ count_answered Op.balances app.log + in_flight Op.balances app.state.tasks
act_all-in_flight_example = act_all-in_flight none session Op.balances

-- Documents whose values are texts or tables, which may have nothing under a name.
mutual
  data Toy : Type 0 where
    word : Text → Toy
    dict : (Text → Slot) → Toy

  data Slot : Type 0 where
    absent : Slot
    value : Toy → Slot

abbrev toy_table : Toy → Option (Text → Slot)
toy_table (word s) = none
toy_table (dict t) = some t

abbrev contents : Slot → Option Toy
contents absent = none
contents (value v) = some v

contents-if :
    (c : Bool) (a b : Slot) → contents (if c then a else b) ≡ (if c then contents a else contents b)
contents-if true a b = refl
contents-if false a b = refl

abbrev toy_doc : TomlDoc
toy_doc = record {
  Value = Toy;
  Table = Text → Slot;
  parse = λ s. ok (dict (λ n. absent));
  as_table = toy_table;
  of_table = dict;
  get = λ n t. contents (t n);
  remove = λ m t n. if text_eq m n then absent else t n;
  insert = λ m v t n. if text_eq m n then value v else t n;
  of_bitcoind = λ section. ok (
      dict
        (λ n. if text_eq n (lit "rpc_address") then value (word section.rpc_address) else absent));
  of_server_url = λ url. ok (dict (λ n. value (word url)));
  print = λ v. ok [];
}

abbrev toy_doc-TomlLaws : TomlLaws toy_doc
toy_doc-TomlLaws = record {
  as_table-of_table = λ t. refl;
  get-remove = λ n m t. contents-if (text_eq m n) absent (t n);
  get-insert = λ n m v t. contents-if (text_eq m n) (value v) (t n);
}

-- A document with a section of esplora and one of the node.
abbrev sections : Text → Slot
sections n =
    if text_eq (lit "esplora") n
    then value (word [])
    else if text_eq (lit "node") n
    then value (word [])
    else absent

abbrev saved_sections : Toy
saved_sections = dict (
    toy_doc.insert (lit "electrum") (dict (λ n. value (word (lit "s")))) (
      toy_doc.remove (lit "esplora")
        (toy_doc.remove (lit "electrum") (toy_doc.remove (lit "bitcoind") sections))))

replaces :
    replace_source toy_doc (ChainSourceConfig.electrum (lit "s")) (dict sections)
    ≡ ok saved_sections
unfolding replace_source add_source
replaces = refl

replace_source-Replaced_example :
    (after : Text → Slot) × (toy_table saved_sections ≡ some after)
    × Replaced toy_doc toy_doc-TomlLaws (ChainSourceConfig.electrum (lit "s")) sections after
replace_source-Replaced_example =
    replace_source-Replaced toy_doc toy_doc-TomlLaws (ChainSourceConfig.electrum (lit "s"))
      (dict sections) saved_sections sections refl replaces

-- A broker that acknowledges every other message.
abbrev broker : Lapin
broker = record {
  Net = List ℕ;
  Connection = Unit;
  Channel = Text;
  Confirm = List ℕ;
  connect = λ url net. (ok tt, net);
  create_channel = λ conn net. (ok (lit "channel"), net);
  confirm_select = λ channel net. (ok tt, net);
  exchange_declare = λ channel name net. (ok tt, net);
  is_connected = λ conn net. true;
  basic_publish = λ channel name mode bytes net. (ok bytes, bytes ++ net);
  confirm = λ bytes net. (ok ack, net);
}

abbrev exchange : RabbitMqConfig
exchange = record { connection_string = lit "amqp://h"; exchange_name = lit "ldk" }

abbrev unconnected : Session broker
unconnected = record { connection = none; channel = none; net = [] }

publish-Outcome_example :
    Outcome broker exchange (7 ∷ []) (publish broker exchange (7 ∷ []) unconnected)
publish-Outcome_example = publish-Outcome broker exchange (7 ∷ []) unconnected

handle_event-Told_example :
    (after : World daemon) × (handle_event daemon works
        (some 9)
        (Event.payment_received (some (lit "c")))
        before_event
      ≡ some after)
    × (after.node ≡ 1)
unfolding check_namespace_key_validity lit payment_to_proto
handle_event-Told_example =
    handle_event-Told daemon 9 (Event.payment_received (some (lit "c"))) before_event
      (lit "c", details, refl, refl, refl, refl)
