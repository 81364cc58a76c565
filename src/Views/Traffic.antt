-- ===== src/Views/Traffic.antt =====
-- frontend/src/admin/workspaces/TrafficWorkspace.jsx: what the view of the traffic shows of the state
-- of the console. The ports of a history are objects, and a history and its ports have `totals`.
use ai_routing_panel.Console.State.{Console}
use ai_routing_panel.Js.{
  num, is_str, truthy, same, or_else, elements, undefined, get, to_str, object, str, Builtins,
  Value,
}
use ai_routing_panel.Dashboard.Labels.{neutral, danger, port_tone, success, Tone}
use ai_routing_panel.Views.Delivery.{is_selected_card}
use ai_routing_panel.Console.Ports.{selected_port}
use ai_routing_panel.Format.Bytes.{human_bytes}
use ai_routing_panel.Prelude.{
  take, none, ◌==◌, ◌⧺◌, [], map, ◌∷◌, find, if◌then◌else◌, Bool, String, ℕ, Option, List, some,
}

-- `RANGES`
abbrev pub ranges : List (ℕ × String)
ranges = (1, "今日") ∷ (7, "近 7 天") ∷ (30, "近 30 天") ∷ []

unfoldable pub period_label : ℕ → String
period_label days = elim (find (λ (r : ℕ × String). r.0 == days) ranges) [
  | none ↦ "所选周期"
  | some r ↦ r.1
]

-- `traffic`: the history, where it is that of the chosen period.
unfoldable pub traffic_of : Console → Option Value
traffic_of c =
    if same (get (get c.insights "traffic") "days") (num c.insights_days)
    then some (get c.insights "traffic")
    else none

-- `historyMessage`
unfoldable pub traffic_message : Console → Value
traffic_message c =
    if c.insights_loading then str "正在加载流量统计…" else or_else c.insights_error (str "流量统计尚未加载。")

unfoldable pub period_note : Option Value → Value → Value
period_note none message = message
period_note (some t) message =
    str (to_str (get t "range_start") ⧺ " → " ⧺ to_str (get t "range_end"))

-- `traffic?.ports || []`
unfoldable pub traffic_ports : Option Value → List Value
traffic_ports none = []
traffic_ports (some t) = elements (get t "ports")

-- `ports.find((item) => item.listen_port === port.listen_port)`
unfoldable pub series_of : List Value → Value → Option Value
series_of ports port = find (λ item. same (get item "listen_port") (get port "listen_port")) ports

-- `selectedTraffic`; the port of no selection is undefined.
unfoldable pub selected_traffic : List Value → Option Value → Option Value
selected_traffic ports none = series_of ports undefined
selected_traffic ports (some port) = series_of ports port

abbrev pub total : Value → String → Value
total v k = get (get v "totals") k

-- An entry of the ranking, as `BarRanking` takes it.
unfoldable pub ranked : String → Value → Value
ranked label item = object (
    ("key", get item "listen_port")
    ∷ ("label", str (":" ⧺ to_str (get item "listen_port")))
    ∷ ("value", total item "total_bytes")
    ∷ (
      "note",
      str (
          to_str (or_else (get item "note") (str "未命名"))
          ⧺ " · "
          ⧺ label
          ⧺ " "
          ⧺ to_str (total item "connections")
          ⧺ " 连接"),
    )
    ∷ ("color", str "var(--c-primary)")
    ∷ [])

unfoldable pub ranking : String → List Value → List Value
ranking label ports = map (ranked label) (take 8 ports)

-- A text of bytes, and a count, of what may be absent.
unfoldable pub bytes_or_dash : Builtins → String → Option Value → Value
bytes_or_dash js k none = str "—"
bytes_or_dash js k (some v) = str (human_bytes js (total v k))

unfoldable pub count_or_dash : Option Value → Value
count_or_dash none = str "—"
count_or_dash (some v) = total v "connections"

-- The four figures that the metric cards, a row and the details show.
pub record Figures : Type 0 where
  pub all_bytes : Value
  pub received : Value
  pub sent : Value
  pub connections : Value

unfoldable pub figures : Builtins → Option Value → Figures
figures js v = record {
  all_bytes = bytes_or_dash js "total_bytes" v;
  received = bytes_or_dash js "bytes_received" v;
  sent = bytes_or_dash js "bytes_sent" v;
  connections = count_or_dash v;
}

-- `series?.series.total_bytes || []`
unfoldable pub trend : Option Value → List Value
trend none = []
trend (some v) = elements (get (get v "series") "total_bytes")

pub record TrafficRow : Type 0 where
  pub port_id : Value
  pub is_selected : Bool
  pub number : String
  pub note : Value
  pub tone : Tone
  pub label : Value
  pub shown : Figures
  pub trend_values : List Value

unfoldable pub traffic_row : Builtins → List Value → Option Value → Value → TrafficRow
traffic_row js ports selected port = record {
  port_id = get port "id";
  is_selected = is_selected_card selected port;
  number = ":" ⧺ to_str (get port "listen_port");
  note = or_else (get port "note") (str "未命名");
  tone = port_tone port;
  label = or_else (get port "status_label") (get port "status");
  shown = figures js (series_of ports port);
  trend_values = trend (series_of ports port);
}

-- What a chart is given: the dates and the two series, or a remark instead.
pub data Plot : Type 0 where
  plotted : Value → Value → Value → Plot
  remark : Value → Plot

unfoldable pub plot_of : Option Value → Option Value → Value → Plot
plot_of (some t) (some v) message =
    plotted (get t "dates") (get (get v "series") "bytes_received")
      (get (get v "series") "bytes_sent")
plot_of _ _ message = remark message

unfoldable pub port_remark : Option Value → Value → Value
port_remark none message = message
port_remark (some t) message = str "该端口在所选区间内没有历史记录。"

unfoldable pub probe_tone : Value → Tone
probe_tone port =
    if is_str (get port "probe_status") "healthy"
    then success
    else if is_str (get port "probe_status") "unhealthy"
    then danger
    else neutral

-- The caption of the gauge.
unfoldable pub quota_caption : Value → String
quota_caption port =
    to_str (get port "traffic_used_display")
    ⧺ (if truthy (get port "traffic_limit_bytes")
        then " / " ⧺ to_str (get port "traffic_limit_display")
        else "")

pub record PortDetail : Type 0 where
  pub title : String
  pub description : Value
  -- the `value`, the `max` and the `caption` of `GaugeRing`
  pub quota_used : Value
  pub quota_limit : Value
  pub caption : String
  pub shown : Figures
  pub remaining : Value
  pub expires : Value
  pub tone : Tone
  pub probed : Value
  pub plot : Plot

unfoldable pub port_detail : Builtins → Option Value → Value → Value → PortDetail
port_detail js traffic message port =
    let series = selected_traffic (traffic_ports traffic) (some port) in
    record {
      title = "端口 " ⧺ to_str (get port "listen_port");
      description = or_else (get port "note") (str "未填写备注");
      quota_used = get port "traffic_usage_bytes";
      quota_limit = or_else (get port "traffic_limit_bytes") (num 0);
      caption = quota_caption port;
      shown = figures js series;
      remaining = or_else (get port "traffic_remaining_display") (str "无限制");
      expires = or_else (get port "expires_at_display") (str "永久");
      tone = probe_tone port;
      probed = or_else (get port "probe_status_label") (str "未检测");
      plot = plot_of traffic series (port_remark traffic message);
    }

pub record TrafficView : Type 0 where
  pub label : String
  pub metrics : Figures
  pub note : Value
  pub site_plot : Plot
  pub bars : List Value
  pub rows : List TrafficRow
  pub detail : Option PortDetail

module _ (js : Builtins) (includes : String → String → Bool) where
  unfoldable pub detail_view : Option Value → Value → Option Value → Option PortDetail
  detail_view traffic message none = none
  detail_view traffic message (some port) = some (port_detail js traffic message port)

  -- The view of a history that may be absent.
  unfoldable pub view_with : Option Value → Console → TrafficView
  view_with traffic c =
      let selected = selected_port js includes c in
      record {
        label = period_label c.insights_days;
        metrics = figures js traffic;
        note = period_note traffic (traffic_message c);
        site_plot = plot_of traffic traffic (traffic_message c);
        bars = ranking (period_label c.insights_days) (traffic_ports traffic);
        rows = map (traffic_row js (traffic_ports traffic) selected) (c.panel.ports);
        detail = detail_view traffic (traffic_message c) selected;
      }

  unfoldable pub traffic_view : Console → TrafficView
  traffic_view c = view_with (traffic_of c) c
