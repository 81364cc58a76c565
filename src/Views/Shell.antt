-- ===== src/Views/Shell.antt =====
-- The frame of frontend/src/admin/App.jsx with the navigation of
-- frontend/src/admin/components/WorkspaceNav.jsx: the active workspace, the drawer and the refresh.
use ai_routing_panel.Prelude.{
  not, some, ◌++◌, true, ◌===◌, [], suc, ◌||◌, none, if◌then◌else◌, ◌∷◌, Option, leb, ◌&&◌, ℕ, zero,
  get_elem?, List, String, false, Bool,
}

pub record NavItem : Type 0 where
  pub key : String
  pub label : String
  pub group : String

abbrev pub nav_item : String → String → String → NavItem
nav_item key label group = record { key = key; label = label; group = group }

abbrev pub overview_item : NavItem
overview_item = nav_item "overview" "总览" "运行监控"

-- `WORKSPACES`
abbrev pub workspaces : List NavItem
workspaces =
    overview_item
    ∷ nav_item "hosts" "主机" "运行监控"
    ∷ nav_item "traffic" "流量" "运行监控"
    ∷ nav_item "topology" "流量拓扑" "运行监控"
    ∷ nav_item "routing" "AI 路由" "配置与业务"
    ∷ nav_item "delivery" "交付" "配置与业务"
    ∷ []

pub data Workspace : Type 0 where
  overview hosts traffic routing delivery topology : Workspace

-- `WORKSPACE_COMPONENTS`
abbrev pub workspace_components : List (String × Workspace)
workspace_components =
    ("overview", overview)
    ∷ ("hosts", hosts)
    ∷ ("traffic", traffic)
    ∷ ("routing", routing)
    ∷ ("delivery", delivery)
    ∷ ("topology", topology)
    ∷ []

abbrev pub component_of : List (String × Workspace) → String → Option Workspace
component_of [] key = none
component_of (w ∷ ws) key = if w.0 === key then some w.1 else component_of ws key

abbrev pub item_or : NavItem → List NavItem → String → NavItem
item_or other [] key = other
item_or other (i ∷ is) key = if i.key === key then i else item_or other is key

-- `meta`
abbrev pub meta_of : String → NavItem
meta_of key = item_or overview_item workspaces key

-- `GROUPS`
abbrev pub groups : List String
groups = "运行监控" ∷ "配置与业务" ∷ []

abbrev pub items_of : String → List NavItem → List NavItem
items_of group [] = []
items_of group (i ∷ is) = if i.group === group then i ∷ items_of group is else items_of group is

abbrev pub nav_items : List String → List NavItem
nav_items [] = []
nav_items (g ∷ gs) = items_of g workspaces ++ nav_items gs

-- The workspaces that the overview opens.
abbrev pub overview_links : List String
overview_links = "traffic" ∷ "topology" ∷ "topology" ∷ "hosts" ∷ []

-- `pending` counts the calls of `refreshDashboard` by `refresh` that have not ended.
pub record Shell : Type 0 where
  pub active : String
  pub is_mobile : Bool
  pub nav_open : Bool
  pub refreshing : Bool
  pub pending : ℕ

-- `mobileViewport` of a window of this width
unfoldable pub mobile_viewport : ℕ → Bool
mobile_viewport width = leb width 840

unfoldable pub opened : ℕ → Shell
opened width = record {
  active = "overview";
  is_mobile = mobile_viewport width;
  nav_open = false;
  refreshing = false;
  pending = 0;
}

unfoldable pub drawer_open : Shell → Bool
drawer_open s = s.is_mobile && s.nav_open

-- `hidden` of the navigation
unfoldable pub is_nav_hidden : Shell → Bool
is_nav_hidden s = s.is_mobile && not (drawer_open s)

-- `inert` of the content
unfoldable pub is_content_inert : Shell → Bool
is_content_inert s = drawer_open s

unfoldable pub update_viewport : ℕ → Shell → Shell
update_viewport width s =
    if mobile_viewport width
    then record s { is_mobile = true }
    else record s { is_mobile = false; nav_open = false }

unfoldable pub select_workspace : String → Shell → Shell
select_workspace key s = record s { active = key; nav_open = false }

unfoldable pub close_nav : Shell → Shell
close_nav s = record s { nav_open = false }

unfoldable pub syncing : Bool → Shell → Bool
syncing loading s = loading || s.refreshing

-- `refresh` up to its await, where `panel.loading` is `loading`.
unfoldable pub refresh : Bool → Shell → Shell
refresh loading s =
    if syncing loading s then s else record s { refreshing = true; pending = suc s.pending }

-- Its `finally`, where a call waits.
unfoldable pub refresh_ends : Shell → Shell
refresh_ends s = elim s.pending [ zero ↦ s | suc n ↦ record s { refreshing = false; pending = n } ]

pub data ShellEvent : Type 0 where
  resizes : ℕ → ShellEvent
  -- a click on the entry of the navigation, or on the link of the overview, at this place
  picks : ℕ → ShellEvent
  follows : ℕ → ShellEvent
  opens_nav : ShellEvent
  closes_nav : ShellEvent
  refreshes : Bool → ShellEvent
  refreshed : ShellEvent

unfoldable pub shell_step : ShellEvent → Shell → Shell
shell_step (resizes width) s = update_viewport width s
shell_step (picks k) s = elim (get_elem? (nav_items groups) k) [
  | none ↦ s
  | some i ↦ if is_nav_hidden s then s else select_workspace (i.key) s
]
shell_step (follows k) s = elim (get_elem? overview_links k) [
  | none ↦ s
  | some key ↦
      if s.active === "overview" && not (is_content_inert s) then select_workspace key s else s
]
-- The button is shown on a narrow screen only.
shell_step opens_nav s =
    if s.is_mobile && not (is_content_inert s) then record s { nav_open = true } else s
shell_step closes_nav s = if drawer_open s then close_nav s else s
shell_step (refreshes loading) s =
    if syncing loading s || is_content_inert s then s else refresh loading s
shell_step refreshed s = refresh_ends s

unfoldable pub shell_run : List ShellEvent → Shell → Shell
shell_run [] s = s
shell_run (e ∷ es) s = shell_run es (shell_step e s)
