-- ===== src/Console/Tasks.antt =====
-- The bodies of the mutations of frontend/src/admin/state/PanelProvider.jsx, cut at each `await`: a
-- task is what waits for a reply, and its continuation is synchronous code.
use ai_routing_panel.Prelude.{
  String, ◌===◌, Bool, not, ◌&&◌, Option, none, some, find, if◌then◌else◌,
}
use ai_routing_panel.Js.{
  Value, null, num, str, Builtins, or_else, coalesce, get, is_nullish, is_str, same, to_str,
}
use ai_routing_panel.Dashboard.Panel.{empty, empty_port_form, normalize_dashboard}
use ai_routing_panel.Console.State.{
  Console, Clock, Failure, Reply, answered, refused, M, no_filters, ◌>>◌, return, throw, modify,
}
use ai_routing_panel.Console.Apply.{apply_response, refresh_settled, type_error}
use ai_routing_panel.Console.Actions.{Action, create_port, delete_port, diagnose_data_plane}

pub data Task : Type 0 where
  -- `createPort`, with the listen port of the form; and after a conflict
  creating : String → Task
  create_conflict : Task
  -- `deletePort`; and after the port turned out to be gone
  deleting : Task
  delete_missing : Task
  diagnosing : Task
  -- every other mutation: `applyResponse(await request())`
  mutating : Task

-- `String(createForm.listen_port ?? "").trim()`
unfoldable pub listen_port_of : Builtins → Value → String
listen_port_of js form = js.trim (to_str (coalesce (get form "listen_port") (str "")))

unfoldable pub task_of : Builtins → Console → Action → Task
task_of js c create_port = creating (listen_port_of js c.create_form)
task_of js c (delete_port p) = deleting
task_of js c diagnose_data_plane = diagnosing
task_of js c _ = mutating

abbrev pub info : String → Console → Console
info text c = record c { flash = record { message = str text; level = str "info" } }

abbrev pub clear_form : Console → Console
clear_form c = record c { create_form = empty_port_form }

-- `error?.status === n`
unfoldable pub has_status : Failure → Value → Bool
has_status e n = same e.status n

-- The port of the reply that was created: by its id, or by its listen port.
unfoldable pub is_created : Value → String → Value → Bool
is_created reply listen_port port =
    if is_nullish (get reply "created_port_id")
    then to_str (get port "listen_port") === listen_port
    else same (get port "id") (get reply "created_port_id")

unfoldable pub select_created : Option Value → Console → Console
select_created none c = c
select_created (some port) c = record c { filters = no_filters; selected_port_id = get port "id" }

module _ (js : Builtins) (clock : Clock) where
  -- the part of `createPort` after its request was answered
  unfoldable pub port_created : String → Value → M (Unit {0})
  port_created listen_port reply = do
    apply_response js clock reply
    modify clear_form
    elim (normalize_dashboard (or_else (get reply "dashboard") empty)) [
      | none ↦ throw (type_error js)
      | some p ↦ modify (select_created (find (is_created reply listen_port) p.ports))
    ]

  unfoldable pub is_conflict : String → Failure → Bool
  is_conflict listen_port e = has_status e (num 409) && not (listen_port === "")

  unfoldable pub is_missing : Failure → Bool
  is_missing e = has_status e (num 400) && is_str e.message "端口记录不存在。"

  -- What a task does when its request ends: it is over, it waits for another one, or it raises.
  unfoldable pub resume : Task → Reply → M (Option Task)
  resume (creating listen_port) (answered reply) = do port_created listen_port reply; return none
  resume (creating listen_port) (refused e) =
      if is_conflict listen_port e then return (some create_conflict) else throw e
  resume create_conflict reply = do
    modify (refresh_settled js clock reply)
    modify (info "监听端口已存在，已选中已有端口。")
    modify clear_form
    return none
  resume deleting (answered reply) = do apply_response js clock reply; return none
  resume deleting (refused e) = if is_missing e then return (some delete_missing) else throw e
  resume delete_missing reply = do
    modify (refresh_settled js clock reply)
    modify (info "端口已不存在，列表已刷新。")
    return none
  resume diagnosing (answered reply) = do
    modify (λ c. record c { diagnosis = or_else (get reply "diagnosis") null })
    apply_response js clock reply
    return none
  resume diagnosing (refused e) = throw e
  resume mutating (answered reply) = do apply_response js clock reply; return none
  resume mutating (refused e) = throw e
