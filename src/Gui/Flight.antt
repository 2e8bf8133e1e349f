-- ===== src/Gui/Flight.antt =====
-- No operation has two requests in flight, for ldk-server-gui/src/app.rs.
use ldk_server.Prelude.{
  ℕ, suc, ◌+◌, ◌≡◌, refl, sym, ap, ◌∙◌, Bool, true, false, Option, none, some, List, [], ◌∷◌,
  Result, ok, err, ◌||◌, is_some, if◌then◌else◌, arith, Bool-cases, inl, inr,
}
use ldk_server.Text.{Text, lit, is_empty}
use ldk_server.Text.Trim.{trim}
use ldk_server.Client.{LdkServerClient}
use ldk_server.Files.{Files, read_file}
use ldk_server.Storage.Namespace.{IoError}
use ldk_server.Gui.Config.{GuiConfig}
use ldk_server.Gui.State.{Op, op_eq, Request, Response, set_task, AsyncTasks}
use ldk_server.Gui.Indices.{same-op}
use ldk_server.Gui.Launch.{
  App, Entry, sent, answered, with_status, launch_with, launch, ConnectEnv, connected, with_cert,
  connect, disconnect,
}
use ldk_server.Gui.{
  on_answer, Answers, cleared, take_answer, poll_task, poll_all, poll_tasks, Action, click,
  connects, disconnects, types, opens, frame, act, act_all, new_app,
}

-- How often a request of the operation has been sent, and an answer to it taken.
abbrev pub count_sent : Op → List Entry → ℕ
count_sent op [] = 0
count_sent op (sent o client r ∷ log) =
    if op_eq o op then suc (count_sent op log) else count_sent op log
count_sent op (answered o ∷ log) = count_sent op log

abbrev pub count_answered : Op → List Entry → ℕ
count_answered op [] = 0
count_answered op (sent o client r ∷ log) = count_answered op log
count_answered op (answered o ∷ log) =
    if op_eq o op then suc (count_answered op log) else count_answered op log

-- The requests of the operation that wait for an answer.
abbrev pub in_flight : Op → AsyncTasks → ℕ
in_flight op tasks = if is_some (tasks op) then 1 else 0

-- Every request has been answered but the one that its task waits for.
abbrev pub Balanced : AsyncTasks → List Entry → Type 0
Balanced tasks log = (op : Op) → count_sent op log ≡ count_answered op log + in_flight op tasks

abbrev pub IsBalanced : App → Type 0
IsBalanced app = Balanced app.state.tasks app.log

sent-Balanced :
    (o : Op) (client : LdkServerClient) (r : Request o) (tasks : AsyncTasks) (log : List Entry)
    → tasks o ≡ none
    → Balanced tasks log
    → Balanced (set_task o (some client) tasks) (sent o client r ∷ log)
sent-Balanced o client r tasks log free b op = elim (Bool-cases (op_eq o op)) [
  | inl e ↦
      let before = b op in
      let idle = ap tasks (sym (same-op o op e)) ∙ free in ground (arith, e, before, idle)
  | inr e ↦ let before = b op in rw e before
]

answered-Balanced :
    (o : Op) (client : LdkServerClient) (tasks : AsyncTasks) (log : List Entry)
    → tasks o ≡ some client
    → Balanced tasks log
    → Balanced (set_task o none tasks) (answered o ∷ log)
answered-Balanced o client tasks log busy b op = elim (Bool-cases (op_eq o op)) [
  | inl e ↦
      let before = b op in
      let waits = ap tasks (sym (same-op o op e)) ∙ busy in ground (arith, e, before, waits)
  | inr e ↦ let before = b op in rw e before
]

launch_with-IsBalanced :
    (o : Op) (task client : Option LdkServerClient) (r : Result (Request o) Text) (app : App)
    → app.state.tasks o ≡ task
    → IsBalanced app
    → IsBalanced (launch_with o task client r app)
launch_with-IsBalanced o (some task) client r app t b = b
launch_with-IsBalanced o none none r app t b = b
launch_with-IsBalanced o none (some client) (err e) app t b = b
launch_with-IsBalanced o none (some client) (ok r) app t b =
    sent-Balanced o client r app.state.tasks app.log t b

launch-IsBalanced : (o : Op) (app : App) → IsBalanced app → IsBalanced (launch o app)
unfolding launch
launch-IsBalanced o app = launch_with-IsBalanced o _ _ _ app refl

connected-IsBalanced :
    (env : ConnectEnv) (client : Result LdkServerClient Text) (app : App)
    → IsBalanced app
    → IsBalanced (connected env client app)
unfolding connected
connected-IsBalanced env (err e) app b = b
connected-IsBalanced env (ok client) app b =
    launch-IsBalanced Op.channels _
      (launch-IsBalanced Op.balances _ (launch-IsBalanced Op.node_info _ b))

with_cert-IsBalanced :
    (env : ConnectEnv) (cert : Result Text IoError) (url : Text) (app : App)
    → IsBalanced app
    → IsBalanced (with_cert env cert url app)
with_cert-IsBalanced env (err e) url app b = b
with_cert-IsBalanced env (ok cert_data) url app b = connected-IsBalanced env _ app b

if-IsBalanced :
    (c : Bool) (app other : App)
    → IsBalanced app
    → IsBalanced other
    → IsBalanced (if c then app else other)
if-IsBalanced true app other b d = b
if-IsBalanced false app other b d = d

connect-IsBalanced :
    (env : ConnectEnv) (fs : Files) (app : App) → IsBalanced app → IsBalanced (connect env fs app)
unfolding connect
connect-IsBalanced env fs app b =
    let url = trim app.state.server_url in
    let cert_path = trim app.state.tls_cert_path in
    if-IsBalanced (is_empty url || is_empty app.state.api_key || is_empty cert_path)
      (with_status (lit "Please fill in all connection fields") true app)
      (with_cert env (read_file env.disk cert_path fs) url app) b
      (with_cert-IsBalanced env (read_file env.disk cert_path fs) url app b)

-- The handlers change no task, but for the channels that some fetch.
on_answer-IsBalanced :
    (o : Op) (v : Response o) (app : App) → IsBalanced app → IsBalanced (on_answer o v app)
unfolding on_answer
on_answer-IsBalanced Op.node_info v app b = b
on_answer-IsBalanced Op.balances v app b = b
on_answer-IsBalanced Op.channels v app b = b
on_answer-IsBalanced Op.payments v app b = b
on_answer-IsBalanced Op.onchain_receive v app b = b
on_answer-IsBalanced Op.onchain_send v app b = b
on_answer-IsBalanced Op.bolt11_receive v app b = b
on_answer-IsBalanced Op.bolt11_send v app b = b
on_answer-IsBalanced Op.bolt12_receive v app b = b
on_answer-IsBalanced Op.bolt12_send v app b = b
on_answer-IsBalanced Op.open_channel v app b = launch-IsBalanced Op.channels _ b
on_answer-IsBalanced Op.close_channel v app b = launch-IsBalanced Op.channels _ b
on_answer-IsBalanced Op.force_close_channel v app b = launch-IsBalanced Op.channels _ b
on_answer-IsBalanced Op.splice_in v app b = launch-IsBalanced Op.channels _ b
on_answer-IsBalanced Op.splice_out v app b = launch-IsBalanced Op.channels _ b
on_answer-IsBalanced Op.update_channel_config v app b = launch-IsBalanced Op.channels _ b
on_answer-IsBalanced Op.connect_peer v app b = b

take_answer-IsBalanced :
    (o : Op) (task : Option LdkServerClient) (answer : Option (Result (Response o) Text))
    (app : App)
    → app.state.tasks o ≡ task
    → IsBalanced app
    → IsBalanced (take_answer o task answer app)
take_answer-IsBalanced o none answer app t b = b
take_answer-IsBalanced o (some task) none app t b = b
take_answer-IsBalanced o (some task) (some (ok v)) app t b =
    on_answer-IsBalanced o v (cleared o app) (answered-Balanced o task app.state.tasks app.log t b)
take_answer-IsBalanced o (some task) (some (err e)) app t b =
    answered-Balanced o task app.state.tasks app.log t b

poll_all-IsBalanced :
    (answers : Answers) (ops : List Op) (app : App)
    → IsBalanced app
    → IsBalanced (poll_all answers ops app)
unfolding poll_all poll_task
poll_all-IsBalanced answers [] app b = b
poll_all-IsBalanced answers (o ∷ ops) app b =
    poll_all-IsBalanced answers ops _ (take_answer-IsBalanced o _ (answers o) app refl b)

act-IsBalanced : (app : App) (a : Action) → IsBalanced app → IsBalanced (act app a)
unfolding act disconnect poll_tasks
act-IsBalanced app (click o) b = launch-IsBalanced o app b
act-IsBalanced app (connects env fs) b = connect-IsBalanced env fs app b
act-IsBalanced app disconnects b = b
act-IsBalanced app (types url key path forms) b = b
act-IsBalanced app (opens tab) b = b
act-IsBalanced app (frame answers) b = poll_all-IsBalanced answers _ app b

act_all-IsBalanced :
    (actions : List Action) (app : App) → IsBalanced app → IsBalanced (act_all app actions)
unfolding act_all
act_all-IsBalanced [] app b = b
act_all-IsBalanced (a ∷ actions) app b = act_all-IsBalanced actions _ (act-IsBalanced app a b)

new_app-IsBalanced : (config : Option GuiConfig) → IsBalanced (new_app config)
unfolding new_app
new_app-IsBalanced none op = refl
new_app-IsBalanced (some config) op = refl

-- After any sequence of a user's actions, connects, disconnects and polled answers, starting from a
-- loaded configuration or none, the requests of an operation that the graphical client has sent are
-- those whose answers it has taken, and one more exactly if the operation's task waits: it never has
-- two requests of one operation in flight.
pub act_all-in_flight :
    (config : Option GuiConfig) (actions : List Action) (op : Op)
    → let app = act_all (new_app config) actions in
      count_sent op app.log ≡ count_answered op app.log + in_flight op app.state.tasks
act_all-in_flight config actions =
    act_all-IsBalanced actions (new_app config) (new_app-IsBalanced config)
