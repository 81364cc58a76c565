-- ===== src/Views/Delivery.antt =====
-- frontend/src/admin/workspaces/DeliveryWorkspace.jsx: the filter, the port cards, the details and the
-- buttons of the selected port.
use ai_routing_panel.Js.{
  num, or_else, end, Num, field, undefined, get, same, truthy, is_str, to_str, str, put, Builtins,
  Value,
}
use ai_routing_panel.Prelude.{
  none, ◌==◌, some, ◌++◌, ◌||◌, length, [], if◌then◌else◌, map, Bool, ◌⧺◌, ◌∷◌, List, String,
  Option,
}
use ai_routing_panel.Views.Controls.{Effect, acts, asks, is_busy, shown_if, Control, Question}
use ai_routing_panel.Console.Ports.{filtered_ports, selected_port, update_port_form}
use ai_routing_panel.Dashboard.Labels.{port_tone, Tone}
use ai_routing_panel.Console.Actions.{
  toggle_port, rotate_port_subscription, create_port, update_port, delete_port, reset_traffic,
}
use ai_routing_panel.Dashboard.Panel.{traffic_today}
use ai_routing_panel.Console.State.{Console}

-- `STATUS_OPTIONS`, each a value and a label
abbrev pub status_options : List (String × String)
status_options =
    ("all", "全部")
    ∷ ("active", "运行中")
    ∷ ("disabled", "已停用")
    ∷ ("expired", "已过期")
    ∷ ("throttled", "超额 5 Mbps")
    ∷ []

-- The state of the console after a click on a filter button, and after input in the search field.
unfoldable pub choose_status : String → Console → Console
choose_status status c = record c { filters = record (c.filters) { status = str status } }

unfoldable pub type_query : Value → Console → Console
type_query query c = record c { filters = record (c.filters) { query = query } }

-- The state after input in a field of the form of a new port.
unfoldable pub edit_create_form : String → Value → Console → Console
edit_create_form field_name value c = record c { create_form = put field_name value c.create_form }

-- The state after input in a field of the form of the selected port.
unfoldable pub edit_port_form : Value → String → Value → Console → Console
edit_port_form port field_name value c =
    update_port_form (get port "id") (field field_name value end) c

-- What stands below the filter: a remark, or a card for each port that is shown.
pub record Card : Type 0 where
  pub port_id : Value
  pub is_selected : Bool
  pub number : String
  pub tone : Tone
  pub label : Value
  pub note : Value
  pub today : Num
  pub used : Value
  pub connections : Value
  pub expires : Value

unfoldable pub is_selected_card : Option Value → Value → Bool
is_selected_card none port = same undefined (get port "id")
is_selected_card (some selected) port = same (get selected "id") (get port "id")

module _ (js : Builtins) (includes : String → String → Bool) where
  unfoldable pub card : Option Value → Value → Card
  card selected port = record {
    port_id = get port "id";
    is_selected = is_selected_card selected port;
    number = ":" ⧺ to_str (get port "listen_port");
    tone = port_tone port;
    label = or_else (get port "status_label") (get port "status");
    note = or_else (get port "note") (str "未填写备注");
    today = traffic_today js port;
    used = get port "traffic_used_display";
    connections = or_else (get port "total_connections") (num 0);
    expires = or_else (get port "expires_at_display") (str "永久");
  }

  unfoldable pub cards : Console → List Card
  cards c = map (card (selected_port js includes c)) (filtered_ports js includes c)

  unfoldable pub list_remark : Console → Option String
  list_remark c =
      if length (c.panel.ports) == 0
      then some "当前还没有端口配置，先创建第一个监听端口。"
      else if length (filtered_ports js includes c) == 0
      then some "当前筛选条件下没有匹配的端口。"
      else none

unfoldable pub create_control : Console → Control
create_control c =
    let busy = is_busy c "create-port" in
    record { text = if busy then "创建中…" else "创建端口"; disabled = busy; effect = acts create_port }

abbrev key_with : String → Value → String
key_with prefix port = prefix ⧺ to_str (get port "id")

unfoldable pub save_control : Console → Value → Control
save_control c port =
    let busy = is_busy c (key_with "update:" port) in
    record {
      text = if busy then "保存中…" else "保存修改";
      disabled = busy;
      effect = acts (update_port port);
    }

abbrev question : String → Value → String → String → String → Question
question front port back body label = record {
  title = front ⧺ to_str (get port "listen_port") ⧺ back;
  body = body;
  tone = "danger";
  confirm_label = label;
}

unfoldable pub rotate_subscription : Value → Effect
rotate_subscription port =
    asks (question "重置端口 " port " 的订阅地址？" "旧订阅地址会立即失效，客户端需要重新导入。" "确认重置")
      (rotate_port_subscription port)

unfoldable pub rotate_control : Console → Value → Control
rotate_control c port = record {
  text = "重置订阅地址";
  disabled = is_busy c (key_with "rotate-subscription:" port);
  effect = rotate_subscription port;
}

unfoldable pub reset_control : Console → Value → Control
reset_control c port = record {
  text = "重置流量并解除限速";
  disabled = is_busy c (key_with "reset:" port);
  effect =
      asks (question "重置端口 " port " 的流量？" "累计流量会清零并解除超额限速。已停用的端口保持停用。" "确认重置") (reset_traffic port);
}

unfoldable pub toggle_control : Console → Value → Control
toggle_control c port = record {
  text = if truthy (get port "enabled") then "停用端口" else "启用端口";
  disabled = is_busy c (key_with "toggle:" port);
  effect = acts (toggle_port port);
}

unfoldable pub delete_control : Console → Value → Control
delete_control c port = record {
  text = "删除端口";
  disabled = is_busy c (key_with "delete:" port);
  effect = asks (question "删除端口 " port "？" "端口、租户凭据和该端口的流量记录都会被移除。" "确认删除") (delete_port port);
}

-- `["active", "throttled", "disabled"].includes(selected.status)`
unfoldable pub can_toggle : Value → Bool
can_toggle port =
    is_str (get port "status") "active"
    || is_str (get port "status") "throttled"
    || is_str (get port "status") "disabled"

unfoldable pub port_controls : Console → Value → List Control
port_controls c port =
    save_control c port
    ∷ (shown_if (truthy (get port "access")) (rotate_control c port)
        ++ (shown_if (is_str (get port "status") "throttled") (reset_control c port)
            ++ (shown_if (can_toggle port) (toggle_control c port)
                ++ (delete_control c port ∷ []))))

-- `onCopyError` calls the setter of the flash with a text, where the state is an object: reading
-- `message` of a text is undefined, and `Notice` shows nothing for a falsy message.
abbrev pub copy_error_flash : Value
copy_error_flash = str "浏览器未允许复制，请手动复制。"

unfoldable pub is_notice_shown : Value → Bool
is_notice_shown flash = truthy (get flash "message")
