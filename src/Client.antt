-- ===== src/Client.antt =====
-- pkg/client/client.gen.go, the generated client of the policy API: its settings and how they are
-- made. pkg/engineclient/client.gen.go declares the same for the client of the evaluation API. `U`
-- is url.URL, and `S` the state of what answers the requests. Of the types of api/v1alpha1, those
-- that internal/api/server declares alike are taken from there.
pub mod Building
pub mod Parsing
pub mod Calls
pub mod Settings
pub mod Requests
pub mod Answers
pub mod Exchange
use dcm_policy_manager.Prelude.{
  ℕ, String, Option, none, some, List, [], ◌∷◌, ◌++◌, Result, ok, err, ◌>>=◌, concat, if◌then◌else◌,
}
use dcm_policy_manager.Text.{has_suffix}
use dcm_policy_manager.Http.{Request, HttpResponse}

-- v1alpha1.Error
pub record ApiError : Type 0 where
  pub detail : Option String
  pub instance_uri : Option String
  pub status : ℕ
  pub title : String
  pub type : String

-- HttpRequestDoer
abbrev pub Doer : Type 0 → Type 0 → Type 0
Doer U S = S → Request U → S × Result String HttpResponse

-- RequestEditorFn, which changes the request that it is given
abbrev pub RequestEditorFn : Type 0 → Type 0
RequestEditorFn U = Request U → Result String (Request U)

pub record Client (U S : Type 0) : Type 0 where
  pub server : String
  pub client : Option (Doer U S)
  pub request_editors : List (RequestEditorFn U)

abbrev pub ClientOption : Type 0 → Type 0 → Type 0
ClientOption U S = Client U S → Result String (Client U S)

-- one of the loops of applyEditors
unfoldable pub edit :
    {U : Type 0} → List (RequestEditorFn U) → Request U → Result String (Request U)
edit [] r = ok r
edit (editor ∷ editors) r = do edited ← editor r; edit editors edited

module _ {U S : Type 0} where
  abbrev pub with_http_client : Doer U S → ClientOption U S
  with_http_client doer c = ok (record c { client = some doer })

  abbrev pub with_request_editor_fn : RequestEditorFn U → ClientOption U S
  with_request_editor_fn editor c =
      ok (record c { request_editors = c.request_editors ++ editor ∷ [] })

  -- `parse_and_print` is url.Parse with String of its result.
  abbrev pub with_base_url : (String → Result String String) → String → ClientOption U S
  with_base_url parse_and_print base_url c = do
    server ← parse_and_print base_url
    ok (record c { server = server })

  unfoldable pub apply_options : List (ClientOption U S) → Client U S → Result String (Client U S)
  apply_options [] c = ok c
  apply_options (option ∷ options) c = do changed ← option c; apply_options options changed

  abbrev pub with_slash : Client U S → Client U S
  with_slash c =
      if has_suffix c.server "/" then c else record c { server = concat (c.server ∷ "/" ∷ []) }

  abbrev pub or_default : Doer U S → Option (Doer U S) → Option (Doer U S)
  or_default default none = some default
  or_default default (some doer) = some doer

  -- `default` is a new http.Client.
  unfoldable pub new_client :
      Doer U S → String → List (ClientOption U S) → Result String (Client U S)
  new_client default server options = do
    client ← apply_options options (record { server = server; client = none; request_editors = [] })
    let slashed = with_slash client in
        ok (record slashed { client = or_default default slashed.client })

  -- applyEditors
  unfoldable pub apply_editors :
      Client U S → List (RequestEditorFn U) → Request U → Result String (Request U)
  apply_editors c additional_editors r = do
    edited ← edit c.request_editors r
    edit additional_editors edited

  abbrev do_request : Option (Doer U S) → S → Request U → S × Result String HttpResponse
  do_request none s r = (s, err "invalid memory address or nil pointer dereference")
  do_request (some doer) s r = doer s r

  abbrev sent : Client U S → S → Result String (Request U) → S × Result String HttpResponse
  sent c s (err e) = (s, err e)
  sent c s (ok r) = do_request c.client s r

  -- what the operations of Client have in common: the request is built, edited and sent
  unfoldable pub send :
      Client U S
      → List (RequestEditorFn U)
      → Result String (Request U)
      → S
      → S × Result String HttpResponse
  unfolding apply_editors
  send c req_editors built s = sent c s (built >>= apply_editors c req_editors)
