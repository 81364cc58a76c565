-- ===== src/Console/Apply.antt =====
-- `applyDashboard`, `applyResponse`, `refreshDashboard` and the two guarded loads of
-- frontend/src/admin/state/PanelProvider.jsx.
use ai_routing_panel.Prelude.{
  ℕ, suc, ◌-◌, String, ◌===◌, Bool, true, false, not, ◌&&◌, List, [], ◌∷◌, Option, none, some, map,
  leb, ◌==◌, if◌then◌else◌,
}
use ai_routing_panel.Js.{
  Value, null, num, str, Builtins, Num, nan, nat, or_else, get, truthy, join, le_num, array,
}
use ai_routing_panel.Dashboard.Panel.{Panel, empty, normalize_dashboard, total_traffic_bytes}
use ai_routing_panel.Dashboard.Signature.{routing_signature}
use ai_routing_panel.Console.State.{
  Console, Clock, Sample, Activity, Failure, Reply, answered, refused, done, raise, M, ◌>>◌, return,
  throw, modify,
}

-- `a - b > 0` for ids that are numbers
unfoldable pub id_after : Value → Value → Bool
id_after (num a) (num b) = not (leb a b)
id_after _ _ = false

unfoldable pub insert_id : Value → List Value → List Value
insert_id v [] = v ∷ []
insert_id v (w ∷ ws) = if id_after v w then w ∷ insert_id v ws else v ∷ w ∷ ws

unfoldable pub sort_ids : List Value → List Value
sort_ids [] = []
sort_ids (v ∷ vs) = insert_id v (sort_ids vs)

-- `ports.map((port) => port.id).sort((a, b) => a - b).join(",")`
unfoldable pub port_ids : List Value → String
port_ids ports = join (sort_ids (map (λ p. get p "id") ports))

abbrev pub type_error : Builtins → Failure
type_error js = record { message = str js.type_error; status = Value.undefined }

-- `bytes - previous.bytes`
unfoldable pub sub_num : Num → Num → Num
sub_num (nat a) (nat b) = nat (a - b)
sub_num _ _ = nan

-- Two samples are compared if they are of the same ports, a second apart, and the total did not fall.
unfoldable pub is_comparable : Sample → Sample → Bool
is_comparable previous next =
    previous.port_ids === next.port_ids
    && le_num previous.bytes next.bytes
    && leb 1000000 (next.at - previous.at)

unfoldable pub activity_of : Option Sample → Sample → Option Activity
activity_of none next = none
activity_of (some previous) next =
    if is_comparable previous next
    then some
        (record { bytes = sub_num next.bytes previous.bytes; elapsed = next.at - previous.at })
    else none

unfoldable pub sample_of : Builtins → Clock → Panel → Sample
sample_of js clock next = record {
  at = clock.now;
  bytes = total_traffic_bytes js next.summary;
  port_ids = port_ids next.ports;
}

unfoldable pub take_sample : Sample → Console → Console
take_sample next c = record c {
  traffic_sample = some next;
  traffic_activity = activity_of c.traffic_sample next;
}

-- The end of `applyDashboard`: the signature, the mark of a change, the snapshot.
unfoldable pub show_panel : Clock → Panel → String → Console → Console
show_panel clock next signature c = record c {
  path_changed_at =
      if c.ready && not (c.signature === "") && not (c.signature === signature)
      then clock.date
      else c.path_changed_at;
  signature = signature;
  ready = true;
  panel = next;
}

-- `if (data?.message) setFlash(…)`
unfoldable pub show_message : Value → Console → Console
show_message reply c =
    if truthy (get reply "message")
    then record c {
      flash = record {
        message = get reply "message";
        level = or_else (get reply "level") (str "info");
      };
    }
    else c

-- `setFlash({ message: error?.message || text, level: "error" })`
unfoldable pub show_failure : String → Failure → Console → Console
show_failure text e c = record c {
  flash = record { message = or_else e.message (str text); level = str "error" };
}

-- A `try` whose handler shows the failure.
unfoldable pub or_flash : String → M (Unit {0}) → Console → Console
or_flash text m c = let (c', o) = m c in elim o [ done a ↦ c' | raise e ↦ show_failure text e c' ]

module _ (js : Builtins) where
  unfoldable pub apply_panel : Clock → Panel → M (Unit {0})
  apply_panel clock next = do
    modify (take_sample (sample_of js clock next))
    elim (routing_signature js next) [
      | none ↦ throw (type_error js)
      | some signature ↦ modify (show_panel clock next signature)
    ]

  unfoldable pub apply_dashboard : Clock → Value → M (Unit {0})
  apply_dashboard clock dashboard = elim (normalize_dashboard dashboard) [
    | none ↦ throw (type_error js)
    | some next ↦ apply_panel clock next
  ]

  unfoldable pub apply_response : Clock → Value → M (Unit {0})
  apply_response clock reply = do
    if truthy (get reply "dashboard")
        then apply_dashboard clock (get reply "dashboard")
        else return tt
    modify (show_message reply)

  -- What `refreshDashboard` does when its request ends.
  unfoldable pub apply_reply : String → Clock → Reply → Console → Console
  apply_reply text clock (refused e) c = show_failure text e c
  apply_reply text clock (answered reply) c =
      or_flash text (apply_dashboard clock (or_else (get reply "dashboard") empty)) c

  unfoldable pub refresh_settled : Clock → Reply → Console → Console
  refresh_settled clock reply c = apply_reply "刷新失败。" clock reply c

  -- The first load: not after the component has gone (`cancelled`).
  unfoldable pub initial_settled : Bool → Clock → Reply → Console → Console
  initial_settled cancelled clock reply c =
      if cancelled then c else record (apply_reply "加载失败。" clock reply c) { loading = false }

-- `loadInsights` up to its request; the request's id is the new counter.
unfoldable pub start_insights : Console → Console
start_insights c = record c {
  history_request = suc c.history_request;
  insights_loading = true;
  insights_error = str "";
}

-- `loadInsights` from the end of the request with this id
unfoldable pub insights_settled : ℕ → Reply → Console → Console
insights_settled request (answered reply) c =
    if request == c.history_request
    then record c {
      insights = or_else (get reply "insights") null;
      insights_error = str "";
      insights_loading = false;
    }
    else c
insights_settled request (refused e) c =
    if request == c.history_request
    then record c {
      insights = null;
      insights_error = or_else e.message (str "历史数据加载失败。");
      insights_loading = false;
    }
    else c

-- `changeInsightsDays`
unfoldable pub change_insights_days : ℕ → Console → Console
change_insights_days days c = start_insights (record c { insights_days = days; insights = null })

-- `loadIncidents`, in the same two parts
unfoldable pub start_incidents : Console → Console
start_incidents c = record c {
  incident_request = suc c.incident_request;
  incidents_loading = true;
  incidents_error = str "";
}

unfoldable pub incidents_settled : ℕ → Reply → Console → Console
incidents_settled request (answered reply) c =
    if request == c.incident_request
    then record c {
      incidents = or_else (get reply "incidents") (array []);
      incidents_loading = false;
    }
    else c
incidents_settled request (refused e) c =
    if request == c.incident_request
    then record c {
      incidents_error = or_else e.message (str "故障记录加载失败。");
      incidents_loading = false;
    }
    else c
