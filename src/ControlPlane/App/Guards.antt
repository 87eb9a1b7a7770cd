-- ===== src/ControlPlane/App/Guards.antt =====
-- What a request to app.py cannot do without a credential, and what it cannot do at all.
use paperless_assistant.Base.{
  ℕ, ◌≡◌, refl, ◌≢◌, inl, inr, true, false, not, String, none, some, List, [], ◌∷◌, arith,
  Bool-cases, Option-cases, any, All, leb, ◌==◌, nat_eq, string_eq, pair_eq, if◌then◌else◌,
}
use mathlib.Core.Path.{subst}
use paperless_assistant.Base.Text.{same_letters, starts_with}
use paperless_assistant.ControlPlane.Store.{Job}
use paperless_assistant.ControlPlane.Store.Queue.{lease_next}
use paperless_assistant.ControlPlane.Store.Routing.{
  Routed, IsFor, lease_next-IsFor, lease_next-Routed,
}
use paperless_assistant.ControlPlane.App.{
  Headers, Body, error, job, response, World, Config, Draws, Round, authed_agent, work_handler,
  results_handler, heartbeat_handler, inference_handler, admin_allowed, admin_enqueue_handler,
  work_loop,
}
use paperless_assistant.ControlPlane.App.Routes.{
  Route, enroll_route, work_route, results_route, heartbeat_route, inference_route, enqueue_route,
  dashboard_route, dashboard_write, route, serve_route, handle, normal_path, is_dashboard_path,
}

module _ (scrypt : String → String → String) where
  -- Every handler behind an agent's credential answers 401 and changes nothing without one.
  agent_handlers_guarded :
      (config : Config) (draws : Draws) (headers : Headers) (body : Body) (rounds : List Round)
      (w : World)
      → authed_agent scrypt headers w.store ≡ none
      → let refused = response 401 (error "unauthenticated") in
        (work_handler scrypt config draws headers rounds w ≡ (some refused, w))
        × (results_handler scrypt draws headers body w ≡ (refused, w))
        × (heartbeat_handler scrypt draws headers body w ≡ (refused, w))
        × (inference_handler scrypt config draws headers body w ≡ (some refused, w))
  unfolding work_handler results_handler heartbeat_handler inference_handler
  agent_handlers_guarded config draws headers body rounds w h = (
    rw (h, work_handler) refl,
    rw (h, results_handler) refl,
    rw (h, heartbeat_handler) refl,
    rw (h, inference_handler) refl,
  )

  admin_guarded :
      (config : Config) (draws : Draws) (headers : Headers) (body : Body) (w : World)
      → admin_allowed config headers ≡ false
      → (admin_enqueue_handler config draws headers body w).1 ≡ w
  unfolding admin_enqueue_handler
  admin_guarded config draws headers body w h = rw h refl

  serve_route_guarded :
      (r : Route) (config : Config) (draws : Draws) (path : String) (headers : Headers)
      (body : Body) (rounds : List Round) (w : World)
      → r ≢ enroll_route
      → authed_agent scrypt headers w.store ≡ none
      → admin_allowed config headers ≡ false
      → (serve_route scrypt r config draws path headers body rounds w).1 ≡ w
  unfolding serve_route
  serve_route_guarded enroll_route config draws path headers body rounds w other h a =
      absurd (other refl)
  serve_route_guarded work_route config draws path headers body rounds w other h a =
      rw (agent_handlers_guarded config draws headers body rounds w h).0 refl
  serve_route_guarded results_route config draws path headers body rounds w other h a =
      rw (agent_handlers_guarded config draws headers body rounds w h).1 refl
  serve_route_guarded heartbeat_route config draws path headers body rounds w other h a =
      rw (agent_handlers_guarded config draws headers body rounds w h).2 refl
  serve_route_guarded inference_route config draws path headers body rounds w other h a =
      rw (agent_handlers_guarded config draws headers body rounds w h).3 refl
  serve_route_guarded enqueue_route config draws path headers body rounds w other h a =
      admin_guarded config draws headers body w a
  serve_route_guarded _ config draws path headers body rounds w other h a = refl

  -- A request whose headers authenticate no agent and do not pass the admin's test changes nothing,
  -- whatever its method, path and body, unless it is an enrollment.
  pub handle_guarded :
      (config : Config) (draws : Draws) (method path : String) (headers : Headers) (body : Body)
      (rounds : List Round) (w : World)
      → route method (normal_path path) ≢ enroll_route
      → authed_agent scrypt headers w.store ≡ none
      → admin_allowed config headers ≡ false
      → (handle scrypt config draws method path headers body rounds w).1 ≡ w
  unfolding handle
  handle_guarded config draws method path headers body rounds w =
      serve_route_guarded (route method (normal_path path)) config draws (normal_path path) headers
        body rounds w

-- A dashboard's path is none of the other paths.
not_other_path :
    (other path : String)
    → is_dashboard_path other ≡ false
    → is_dashboard_path path ≡ true
    → (path == other) ≡ false
not_other_path other path h dash = elim (Bool-cases (path == other)) [
  | inl same ↦
      cc (subst (λ p. is_dashboard_path p ≡ true) ((string_eq.test_iff path other).0 same) dash, h)
  | inr differs ↦ differs
]

route-dashboard :
    (method path : String)
    → is_dashboard_path path ≡ true
    → route method path
      ≡ (if not (same_letters method "GET") then dashboard_write else dashboard_route)
unfolding route starts_with
route-dashboard method path h = ground (
  arith,
  not_other_path "/agent/enroll" path refl h,
  not_other_path "/agent/work" path refl h,
  not_other_path "/agent/results" path refl h,
  not_other_path "/agent/heartbeat" path refl h,
  not_other_path "/agent/inference" path refl h,
  not_other_path "/admin/enqueue" path refl h,
)

module _ (scrypt : String → String → String) where
  -- No request to a dashboard's path changes anything, whoever sends it with whatever method and
  -- body, and a method other than GET is answered 405.
  pub dashboards_read_only :
      (config : Config) (draws : Draws) (method path : String) (headers : Headers) (body : Body)
      (rounds : List Round) (w : World)
      → is_dashboard_path (normal_path path) ≡ true
      → let (answer, w') = handle scrypt config draws method path headers body rounds w in
        (w' ≡ w)
        × (same_letters method "GET" ≡ false
            → answer ≡ some (response 405 (error "dashboards are read-only (GET only)")))
  unfolding handle serve_route
  dashboards_read_only config draws method path headers body rounds w h =
      elim (Bool-cases (same_letters method "GET")) [
        | inl get ↦ rw (route-dashboard method (normal_path path) h, get) (refl, λ e. cc)
        | inr other ↦ rw (route-dashboard method (normal_path path) h, other) (refl, λ e. refl)
      ]

-- A thread that keeps the store routed.
abbrev pub KeepsRouted : List Round → Type 0
KeepsRouted rounds =
    All (λ (r : Round). (w : World) → Routed w.store → Routed (r.others w).store) rounds

-- Over a routed store that other threads keep routed, a poll that is answered with a job is
-- answered with one of the tenant and the agent that polls.
work_loop_own_job :
    (scrypt : String → String → String) (deadline : ℕ) (tenant agent_id : String)
    (rounds : List Round) (w : World) (found : Job)
    → Routed w.store
    → KeepsRouted rounds
    → (work_loop scrypt deadline tenant agent_id rounds w).0 ≡ some (response 200 (job found))
    → IsFor (tenant, agent_id) found
unfolding work_loop
work_loop_own_job scrypt deadline tenant agent_id [] w found h keep e = cc
work_loop_own_job scrypt deadline tenant agent_id (r ∷ rounds) w found h keep e =
    let s = (lease_next r.now r.now' tenant agent_id w.store).1 in
    let w' = record w { store = s } in
    let later =
      work_loop_own_job scrypt deadline tenant agent_id rounds (r.others w') found
        (keep.0 w' (lease_next-Routed tenant agent_id w.store h r.now r.now')) keep.1 in
    elim (Option-cases (lease_next r.now r.now' tenant agent_id w.store).0) [
      | inl nothing ↦ elim (Bool-cases (leb deadline r.checked)) [
        | inl over ↦ absurd (ground arith)
        | inr waits ↦ later (ground arith)
      ]
      | inr (leased, got) ↦
          let same : leased ≡ found = ground arith in
          subst (IsFor (tenant, agent_id)) same
            (lease_next-IsFor r.now r.now' tenant agent_id w.store leased h got)
    ]

-- A poll does not stay parked past its deadline: it is answered in the first round in which the
-- clock has reached the deadline, if not before.
pub work_loop_answers :
    (scrypt : String → String → String) (deadline : ℕ) (tenant agent_id : String)
    (rounds : List Round) (w : World)
    → any (λ (r : Round). leb deadline r.checked) rounds ≡ true
    → (work_loop scrypt deadline tenant agent_id rounds w).0 ≢ none
unfolding work_loop
work_loop_answers scrypt deadline tenant agent_id [] w h = cc
work_loop_answers scrypt deadline tenant agent_id (r ∷ rounds) w h =
    let s = (lease_next r.now r.now' tenant agent_id w.store).1 in
    ground (
      arith,
      work_loop_answers scrypt deadline tenant agent_id rounds (r.others (record w { store = s })),
    )
