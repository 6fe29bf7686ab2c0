-- ===== src/Process/Server.antt =====
-- Run of internal/apiserver/server.go and of internal/engineserver/server.go: the URL under which
-- the handlers are mounted, and what it returns. Routing and serving are net/http's and chi's.
use dcm_policy_manager.Prelude.{String, Option, none, some, List, [], ◌∷◌, Result, ok, err, concat}

-- how Serve ends: http.ErrServerClosed after a shutdown, or another error
pub data ServeEnd : Type 0 where
  returned server_closed : ServeEnd
  failed : String → ServeEnd

-- `swagger.Servers[0].URL`, if there is one
unfoldable pub base_url : List String → String
base_url [] = ""
base_url (url ∷ urls) = url

abbrev served : String → ServeEnd → Option String
served what returned = none
served what server_closed = none
served what (failed e) = some (concat (what ∷ e ∷ []))

-- GetSwagger gives the URLs of the API's document; `serve` is Serve on a router with the handlers
-- under a URL.
run_server : String → Result String (List String) → (String → ServeEnd) → Option String
unfolding base_url
run_server what (err e) serve = some (concat ("failed to load swagger spec: " ∷ e ∷ []))
run_server what (ok urls) serve = served what (serve (base_url urls))

unfoldable pub run_api_server : Result String (List String) → (String → ServeEnd) → Option String
unfolding run_server
run_api_server swagger serve = run_server "failed to serve policies API server: " swagger serve

unfoldable pub run_engine_server : Result String (List String) → (String → ServeEnd) → Option String
unfolding run_server
run_engine_server swagger serve = run_server "failed to serve engine API server: " swagger serve
