-- ===== src/Httpapi/Debug/Access.antt =====
-- internal/httpapi/server.go: what the bearer token guards.
use Prim.Native.String.{String}
use package.text.Mathlib.Text.{◌==◌ as same_text}
use remote_mfi.Prelude.{ℕ, ◌≡◌, not, false, List, arith}
use remote_mfi.Encoding.{bytes_equal}
use remote_mfi.Httpapi.Messages.{LibraryTexts}
use remote_mfi.Httpapi.Recent.{RecentRequest}
use remote_mfi.Httpapi.Server.{
  Request, Exchange, Library, with_auth, provided_token, is_business_path,
}
use remote_mfi.Httpapi.Handlers.{ServiceInterface, business_routes}
use remote_mfi.Httpapi.Debug.{StatusInterface, routes}

-- When a bearer token is set: a request to any path but /healthz whose token has another digest does not reach
-- the service, whatever its method (the world is unchanged). On the paths under /mfi, a token in the query of
-- the request does not count.
pub routes-guarded :
    {W : Type 0} (texts : LibraryTexts) (lib : Library) (service : ServiceInterface W)
    (status : StatusInterface W) (token : String) (started_at : ℕ) (entries : List RecentRequest)
    (r : Request) (x : Exchange) (w : W)
    → same_text token "" ≡ false
    → same_text r.path "/healthz" ≡ false
    → bytes_equal (lib.sha256 (provided_token (not (is_business_path r.path)) r)) (lib.sha256 token)
      ≡ false
    → (routes lib status texts service token started_at entries r x w).1 ≡ w
unfolding routes business_routes with_auth is_business_path
routes-guarded texts lib service status token started_at entries r x w set path wrong = ground arith
