-- ===== src/Views/Steady.antt =====
-- The frame of frontend/src/admin/App.jsx always shows a workspace, and what is hidden and what is inert
-- fit together.
use ai_routing_panel.Views.Shell.{
  refreshed, closes_nav, opens_nav, refreshes, follows, picks, mobile_viewport, overview_links,
  resizes, update_viewport, syncing, shell_run, select_workspace, refresh_ends, refresh, opened,
  drawer_open, close_nav, meta_of, is_content_inert, is_nav_hidden, groups, workspace_components,
  nav_items, component_of, Shell, ShellEvent, shell_step,
}
use ai_routing_panel.Prelude.{
  zero, ◌∙◌, suc, ap, ◌||◌, not, ◌===◌, All-get_elem?, inr, inl, get_elem?, Option-cases, [], ◌∷◌,
  if-intro, List, Bool, arith, ℕ, if◌then◌else◌, ◌&&◌, none, false, ◌≢◌, true, ◌≡◌, String, All,
  refl,
}

-- The workspace of a key is drawn, below its own label.
pub record IsDrawn (key : String) : Type 0 where
  pub has_component : component_of workspace_components key ≢ none
  pub own_label : (meta_of key).key ≡ key

pub record IsSteady (s : Shell) : Type 0 where
  pub drawn : IsDrawn s.active
  -- The flag of the drawer is up exactly while the drawer is shown.
  pub drawer : s.nav_open ≡ drawer_open s
  -- One refresh at a time, and its flag falls with its end.
  pub single : s.pending ≡ (if s.refreshing then 1 else 0)

is_drawn :
    (key : String)
    → (component_of workspace_components key ≢ none)
    → (meta_of key).key ≡ key
    → IsDrawn key
is_drawn key h g = record { has_component = h; own_label = g }

nav_items-IsDrawn : All (λ i. IsDrawn i.key) (nav_items groups)
nav_items-IsDrawn = (
  is_drawn "overview" (λ e. ground arith) refl,
  (
    is_drawn "hosts" (λ e. ground arith) refl,
    (
      is_drawn "traffic" (λ e. ground arith) refl,
      (
        is_drawn "topology" (λ e. ground arith) refl,
        (
          is_drawn "routing" (λ e. ground arith) refl,
          (is_drawn "delivery" (λ e. ground arith) refl, tt),
        ),
      ),
    ),
  ),
)

overview_links-IsDrawn : All IsDrawn overview_links
overview_links-IsDrawn = (
  is_drawn "traffic" (λ e. ground arith) refl,
  (
    is_drawn "topology" (λ e. ground arith) refl,
    (is_drawn "topology" (λ e. ground arith) refl, (is_drawn "hosts" (λ e. ground arith) refl, tt)),
  ),
)

select_workspace-IsSteady :
    (key : String) (s : Shell) → IsDrawn key → IsSteady s → IsSteady (select_workspace key s)
unfolding select_workspace drawer_open
select_workspace-IsSteady key s d h = record {
  drawn = d;
  drawer = ground (arith);
  single = h.single;
}

-- A change of the two flags of the frame.
flags-IsSteady :
    (m o : Bool) (s : Shell)
    → o ≡ (m && o)
    → IsSteady s
    → IsSteady (record s { is_mobile = m; nav_open = o })
unfolding drawer_open
flags-IsSteady m o s e h = record { drawn = h.drawn; drawer = e; single = h.single }

idle : (a b : Bool) → (a || b) ≡ false → b ≡ false
idle a b e = ground (arith, e)

refresh-IsSteady : (loading : Bool) (s : Shell) → IsSteady s → IsSteady (refresh loading s)
unfolding refresh syncing drawer_open
refresh-IsSteady loading s h =
    if-intro IsSteady (loading || s.refreshing) (λ e. h)
      (λ e. record {
        drawn = h.drawn;
        drawer = h.drawer;
        single = ap suc (h.single ∙ ap (λ b. if b then 1 else 0) (idle loading (s.refreshing) e));
      })

last_one : (m : ℕ) (b : Bool) → suc m ≡ (if b then 1 else 0) → m ≡ 0
last_one m b e = ground (arith, e)

refresh_ended-IsSteady :
    (n : ℕ) (s : Shell)
    → IsSteady (record s { pending = n })
    → IsSteady (refresh_ends (record s { pending = n }))
unfolding refresh_ends drawer_open
refresh_ended-IsSteady zero s h = h
refresh_ended-IsSteady (suc m) s h = record {
  drawn = h.drawn;
  drawer = h.drawer;
  single = last_one m (s.refreshing) h.single;
}

on_narrow : (m i : Bool) → (m && not i) ≡ true → true ≡ (m && true)
on_narrow m i e = ground (arith, e)

step-IsSteady : (e : ShellEvent) (s : Shell) → IsSteady s → IsSteady (shell_step e s)
unfolding shell_step update_viewport close_nav drawer_open
step-IsSteady (resizes width) s h =
    if-intro IsSteady (mobile_viewport width) (λ e. flags-IsSteady true (s.nav_open) s refl h)
      (λ e. flags-IsSteady false false s refl h)
step-IsSteady (picks k) s h = elim (Option-cases (get_elem? (nav_items groups) k)) [
  | inl e ↦ rw e h
  | inr (i, e) ↦ rw e (
      if-intro IsSteady (is_nav_hidden s) (λ c. h)
        (λ c.
          select_workspace-IsSteady (i.key) s
            (All-get_elem? (λ i. IsDrawn i.key) (nav_items groups) k nav_items-IsDrawn e) h))
]
step-IsSteady (follows k) s h = elim (Option-cases (get_elem? overview_links k)) [
  | inl e ↦ rw e h
  | inr (key, e) ↦ rw e (
      if-intro IsSteady (s.active === "overview" && not (is_content_inert s))
        (λ c.
          select_workspace-IsSteady key s
            (All-get_elem? IsDrawn overview_links k overview_links-IsDrawn e) h)
        (λ c. h))
]
step-IsSteady opens_nav s h =
    if-intro IsSteady (s.is_mobile && not (is_content_inert s))
      (λ e. record {
        drawn = h.drawn;
        drawer = on_narrow (s.is_mobile) (is_content_inert s) e;
        single = h.single;
      })
      (λ e. h)
step-IsSteady closes_nav s h =
    if-intro IsSteady (drawer_open s) (λ e. flags-IsSteady (s.is_mobile) false s (ground arith) h)
      (λ e. h)
step-IsSteady (refreshes loading) s h =
    if-intro IsSteady (syncing loading s || is_content_inert s) (λ e. h)
      (λ e. refresh-IsSteady loading s h)
step-IsSteady refreshed s h = refresh_ended-IsSteady s.pending s h

run-IsSteady : (es : List ShellEvent) (s : Shell) → IsSteady s → IsSteady (shell_run es s)
unfolding shell_run
run-IsSteady [] s h = h
run-IsSteady (e ∷ es) s h = run-IsSteady es (shell_step e s) (step-IsSteady e s h)

-- Whatever the window's width and the events, the active workspace is one that is drawn, below its
-- own label; the flag of the drawer is up exactly while the drawer is shown; and at most one refresh
-- of the button waits, exactly while its flag is up.
pub shell_run-IsSteady : (width : ℕ) (es : List ShellEvent) → IsSteady (shell_run es (opened width))
unfolding opened drawer_open
shell_run-IsSteady width es = run-IsSteady es (opened width) (record {
  drawn = is_drawn "overview" (λ e. ground arith) refl;
  drawer = ground arith;
  single = refl;
})
