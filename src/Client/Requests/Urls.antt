-- ===== src/Client/Requests/Urls.antt =====
-- The URL of a request that the client builds (pkg/client/client.gen.go).
use Prim.Native.String as String
use Prim.Native.String.append as Append
use text.Mathlib.TextLemmas.{append-nil, append_assoc}
use dcm_policy_manager.Prelude.{
  String, Option, List, [], ◌∷◌, ◌++◌, ◌≡◌, ◌≢◌, refl, ok, bind-ok, ok-injective, sym, ap, subst,
  ◌∙◌, concat, true,
}
use dcm_policy_manager.Http.{Request}
use dcm_policy_manager.Http.Web.{Web, IsWeb, IsAt, SamePlace, all_plain, no_percent}
use dcm_policy_manager.Text.{codes}
use dcm_policy_manager.Client.Building.{
  relative, starts_with_slash, operation_url, new_request, policy_url,
}

starts_with_slash-append : (t : String) → starts_with_slash (String.◌++◌ "/policies/" t) ≡ true
starts_with_slash-append t = rw (Append.cons _ "policies/" t)

relative-policy :
    (text : String)
    → relative (concat ("/policies/" ∷ text ∷ [])) ≡ concat ("./" ∷ "policies" ∷ "/" ∷ text ∷ [])
unfolding relative concat
relative-policy text =
    let end = String.◌++◌ text "" in
    rw (starts_with_slash-append end) (
      ap (String.◌++◌ ".") (append-nil (String.◌++◌ "/policies/" end))
      ∙ sym (append_assoc "." "/policies/" end)
      ∙ append_assoc "./policies" "/" end
      ∙ append_assoc "./" "policies" (String.◌++◌ "/" end))

module _ {U F : Type 0} (web : Web U F) {root : U} {base : List String} (laws : IsWeb web root base)
    (server : String) (rooted : web.parse server ≡ ok root) where
  operation_url-resolve :
      (operation_path : String)
      → operation_url web server operation_path ≡ web.resolve root (relative operation_path)
  unfolding operation_url
  operation_url-resolve operation_path = rw rooted

  pub word_url-IsAt :
      (word : String) {u : U}
      → all_plain (codes word) ≡ true
      → relative (concat ("/" ∷ word ∷ [])) ≡ concat ("./" ∷ word ∷ [])
      → operation_url web server (concat ("/" ∷ word ∷ [])) ≡ ok u
      → IsAt web (base ++ word ∷ []) u
  word_url-IsAt word plain e h =
      let (u, resolved, at) = laws.resolve_word word plain in
      subst (IsAt web (base ++ word ∷ []))
        (ok-injective (
          sym resolved
          ∙ ap (web.resolve root) (sym e)
          ∙ sym (operation_url-resolve (concat ("/" ∷ word ∷ [])))
          ∙ h))
        at

  pub health_url-IsAt :
      {u : U} → operation_url web server "/health" ≡ ok u → IsAt web (base ++ "health" ∷ []) u
  unfolding relative concat
  health_url-IsAt h = word_url-IsAt "health" refl refl h

  pub policies_url-IsAt :
      {u : U} → operation_url web server "/policies" ≡ ok u → IsAt web (base ++ "policies" ∷ []) u
  unfolding relative concat
  policies_url-IsAt h = word_url-IsAt "policies" refl refl h

  -- the URL of a policy whose ID is neither empty nor a dot segment and has no percent sign, and
  -- the ID as the server reads it
  pub policy_url-IsAt :
      (id : String) {u : U}
      → id ≢ ""
      → id ≢ "."
      → id ≢ ".."
      → no_percent (codes id) ≡ true
      → policy_url web server id ≡ ok u
      → (segment : String) × IsAt web (base ++ "policies" ∷ segment ∷ []) u
        × (segment ≢ "")
        × (web.bind_path "policyId" segment ≡ ok id)
  unfolding policy_url
  policy_url-IsAt id filled dot dots whole h =
      let (text, styled, k) = bind-ok (web.style_path "policyId" id) _ h in
      let (u, segment, resolved, at, ne, read) =
        laws.resolve_styled "policies" "policyId" id text refl styled filled dot dots whole in
      (
        segment,
        subst (IsAt web (base ++ "policies" ∷ segment ∷ []))
            (ok-injective (
              sym resolved
              ∙ ap (web.resolve root) (sym (relative-policy text))
              ∙ sym (operation_url-resolve (concat ("/policies/" ∷ text ∷ [])))
              ∙ k))
            at,
        ne,
        read,
      )

  -- the parts of the request that http.NewRequest makes
  pub new_request-ok :
      (method : String) (u : U) (body : Option String) {r : Request U}
      → new_request web method u body ≡ ok r
      → (r.method ≡ method) × SamePlace web u r.url × (r.body ≡ body)
  unfolding new_request
  new_request-ok method u body h =
      let (url, parsed, made) = bind-ok (web.reparse u) _ h in
      let e = ok-injective made in
      (
        ap (λ r. r.method) (sym e),
        subst (SamePlace web u) (ap (λ r. r.url) e) (laws.reparse_same u url parsed),
        ap (λ r. r.body) (sym e),
      )
