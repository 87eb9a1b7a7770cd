-- ===== src/ControlPlane/App/Routes.antt =====
-- `ControlPlane.handle` of app.py: which handler answers a method and a path.
use paperless_assistant.Base.{
  Bool, not, ◌||◌, ◌&&◌, String, Option, some, List, nat_beq, ◌==◌, nat_eq, string_eq, pair_eq,
  if◌then◌else◌,
}
use paperless_assistant.Base.Text.{same_letters, starts_with, rstrip, before_mark}
use paperless_assistant.ControlPlane.App.{
  Headers, Body, error, view, Response, response, World, Config, Draws, Round, enroll_handler,
  work_handler, results_handler, heartbeat_handler, inference_handler, admin_enqueue_handler,
}
use paperless_assistant.ControlPlane.Inference.{or_else}

-- `path.split("?", 1)[0].rstrip("/") or "/"`
unfoldable pub normal_path : String → String
unfolding before_mark rstrip or_else
normal_path path = or_else (some (rstrip (λ c. nat_beq c b'/') (before_mark b'?' path))) "/"

abbrev pub path_dashboard : String
path_dashboard = "/dashboard"

abbrev pub is_dashboard_path : String → Bool
is_dashboard_path path = path == path_dashboard || starts_with "/dashboard/" path

-- `_dashboard`
unfoldable pub dashboard_handler : Config → String → Response
dashboard_handler config path =
    if not config.dashboard
    then response 404 (error "dashboards not enabled on this control plane")
    else if path == path_dashboard
    then response 200 (view "html")
    else if path == "/dashboard/fleet"
    then response 200 (view "fleet")
    else if path == "/dashboard/cost"
    then response 200 (view "cost")
    else if path == "/dashboard/review"
    then response 200 (view "review")
    else if path == "/dashboard/summary"
    then response 200 (view "summary")
    else response 404 (error "not found")

-- The routes of the agent protocol, the admin and the dashboards.
pub data Route : Type 0 where
  enroll_route work_route results_route heartbeat_route inference_route enqueue_route : Route
  dashboard_route dashboard_write missing_route : Route

-- the tests of `handle`, in their order
unfoldable pub route : String → String → Route
unfolding same_letters starts_with
route method path =
    if same_letters method "POST" && path == "/agent/enroll"
    then enroll_route
    else if same_letters method "GET" && path == "/agent/work"
    then work_route
    else if same_letters method "POST" && path == "/agent/results"
    then results_route
    else if same_letters method "POST" && path == "/agent/heartbeat"
    then heartbeat_route
    else if same_letters method "POST" && path == "/agent/inference"
    then inference_route
    else if same_letters method "POST" && path == "/admin/enqueue"
    then enqueue_route
    else if is_dashboard_path path
    then (if not (same_letters method "GET") then dashboard_write else dashboard_route)
    else missing_route

abbrev pub answered : Response × World → Option Response × World
answered (r, w) = (some r, w)

module _ (scrypt : String → String → String) where
  unfoldable pub serve_route :
      Route
      → Config
      → Draws
      → String
      → Headers
      → Body
      → List Round
      → World
      → Option Response × World
  serve_route enroll_route config draws path headers body rounds w =
      answered (enroll_handler scrypt draws body w)
  serve_route work_route config draws path headers body rounds w =
      work_handler scrypt config draws headers rounds w
  serve_route results_route config draws path headers body rounds w =
      answered (results_handler scrypt draws headers body w)
  serve_route heartbeat_route config draws path headers body rounds w =
      answered (heartbeat_handler scrypt draws headers body w)
  serve_route inference_route config draws path headers body rounds w =
      inference_handler scrypt config draws headers body w
  serve_route enqueue_route config draws path headers body rounds w =
      answered (admin_enqueue_handler config draws headers body w)
  serve_route dashboard_write config draws path headers body rounds w =
      (some (response 405 (error "dashboards are read-only (GET only)")), w)
  serve_route dashboard_route config draws path headers body rounds w =
      (some (dashboard_handler config path), w)
  serve_route missing_route config draws path headers body rounds w =
      (some (response 404 (error "not found")), w)

  unfoldable pub handle :
      Config
      → Draws
      → String
      → String
      → Headers
      → Body
      → List Round
      → World
      → Option Response × World
  unfolding route normal_path serve_route
  handle config draws method path headers body rounds w =
      let path' = normal_path path in
      serve_route (route method path') config draws path' headers body rounds w
