-- ===== src/Client/Requests/Queries.antt =====
-- The query of a request that the client builds (pkg/client/client.gen.go): the parameters that are
-- given, under their names.
use dcm_policy_manager.Prelude.{
  String, Option, none, some, List, [], ◌∷◌, ◌≡◌, refl, ok, ◌==◌, false, lookup-assign, bind-ok,
  ok-injective, sym, ap, subst, ◌∙◌, eq_refl,
}
use dcm_policy_manager.Prelude.Int.{ℤ}
use dcm_policy_manager.Http.Web.{Web, IsWeb, Values, values_at, add}
use dcm_policy_manager.Client.Building.{
  add_each, add_parsed, add_styled, add_text, add_int, list_query,
}
use dcm_policy_manager.Api.{ListPoliciesParams}
use dcm_policy_manager.Api.Routing.{bind_list_policies_params, bind_create_policy_params}

values_at-add :
    (name value : String) (values : Values)
    → values_at name values ≡ []
    → values_at name (add name value values) ≡ value ∷ []
unfolding values_at add
values_at-add name value values h = rw (lookup-assign, eq_refl, h)

values_at-add_other :
    (name key value : String) (values : Values)
    → (name == key) ≡ false
    → values_at key (add name value values) ≡ values_at key values
unfolding values_at add
values_at-add_other name key value values h = rw (lookup-assign, h)

add_parsed-one :
    (name value : String) (values : Values)
    → add_parsed ((name, value ∷ []) ∷ []) values ≡ add name value values
unfolding add_parsed add_each
add_parsed-one name value values = refl

abbrev given {ℓ} : {A : Type ℓ} → Option A → List A
given none = []
given (some a) = a ∷ []

module _ {U F : Type 0} (web : Web U F) {root : U} {base : List String}
    (laws : IsWeb web root base) where
  -- The values under the name, and under all others, once the parameter has been added.
  abbrev Added : String → Option String → Values → Values → Type 0
  Added name text values after =
      (values_at name values ≡ [] → values_at name after ≡ given text)
      × ((key : String) → (name == key) ≡ false → values_at key after ≡ values_at key values)

  Added-none : (name : String) (values : Values) → Added name none values values
  Added-none name values = ((λ h. h), λ key h. refl)

  Added-some :
      (name text : String) (values : Values) → Added name (some text) values (add name text values)
  Added-some name text values =
      (values_at-add name text values, λ key h. values_at-add_other name key text values h)

  add_text-Added :
      (name : String) (value : Option String) (values after : Values)
      → add_text web name value values ≡ ok after
      → Added name value values after
  unfolding add_text add_styled
  add_text-Added name none values after h =
      subst (Added name none values) (ok-injective h) (Added-none name values)
  add_text-Added name (some value) values after h =
      let (fragment, styled, parsing) = bind-ok (web.style_query name value) _ h in
      let (parsed, read, added) = bind-ok (web.parse_query fragment) _ parsing in
      subst (Added name (some value) values)
        (sym (add_parsed-one name value values)
          ∙ ap (λ p. add_parsed p values) (sym (laws.styled name value fragment parsed styled read))
          ∙ ok-injective added)
        (Added-some name value values)

  -- What the server reads under a name that was added.
  abbrev ReadsInt : String → Option ℤ → Option String → Type 0
  ReadsInt name value text =
      (values : Values)
      → values_at name values ≡ given text
      → web.bind_query_int name values ≡ ok value

  add_int-Added :
      (name : String) (value : Option ℤ) (values after : Values)
      → add_int web name value values ≡ ok after
      → (text : Option String) × Added name text values after × ReadsInt name value text
  unfolding add_int add_styled
  add_int-Added name none values after h = (
    none,
    subst (Added name none values) (ok-injective h) (Added-none name values),
    λ vs e. (laws.bind_missing name vs e).1,
  )
  add_int-Added name (some value) values after h =
      let (fragment, styled, parsing) = bind-ok (web.style_query_int name value) _ h in
      let (parsed, read, added) = bind-ok (web.parse_query fragment) _ parsing in
      let (text, one, reads) = laws.styled_int name value fragment parsed styled read in
      (
        some text,
        subst (Added name (some text) values)
            (sym (add_parsed-one name text values)
              ∙ ap (λ p. add_parsed p values) (sym one)
              ∙ ok-injective added)
            (Added-some name text values),
        reads,
      )

  bind_query-given :
      (name : String) (value : Option String) (values : Values)
      → values_at name values ≡ given value
      → web.bind_query name values ≡ ok value
  bind_query-given name none values h = (laws.bind_missing name values h).0
  bind_query-given name (some value) values h = laws.bind_text name value values h

  -- The values of a URL whose query is empty.
  abbrev IsEmpty : Values → Type 0
  IsEmpty values = (key : String) → values_at key values ≡ []

  abbrev pub Same : Values → Values → Type 0
  Same vs ws = (key : String) → values_at key vs ≡ values_at key ws

  -- The server reads from a query the listing parameters that the client put there.
  pub list_query-bind :
      (params : ListPoliciesParams) (values after received : Values)
      → IsEmpty values
      → list_query web params values ≡ ok after
      → Same received after
      → bind_list_policies_params web received ≡ ok params
  unfolding list_query bind_list_policies_params
  list_query-bind params values after received empty h same =
      let (v₁, h₁, k₁) = bind-ok (add_text web "page_token" params.page_token values) _ h in
      let (v₂, h₂, k₂) = bind-ok (add_int web "max_page_size" params.max_page_size v₁) _ k₁ in
      let (v₃, h₃, h₄) = bind-ok (add_text web "filter" params.filter v₂) _ k₂ in
      let (here₁, else₁) = add_text-Added "page_token" params.page_token values v₁ h₁ in
      let (text, (here₂, else₂), reads) =
        add_int-Added "max_page_size" params.max_page_size v₁ v₂ h₂ in
      let (here₃, else₃) = add_text-Added "filter" params.filter v₂ v₃ h₃ in
      let (here₄, else₄) = add_text-Added "order_by" params.order_by v₃ after h₄ in
      let token =
        bind_query-given "page_token" params.page_token received
          (same _ ∙ else₄ _ refl ∙ else₃ _ refl ∙ else₂ _ refl ∙ here₁ (empty _)) in
      let size =
        reads received (same _ ∙ else₄ _ refl ∙ else₃ _ refl ∙ here₂ (else₁ _ refl ∙ empty _)) in
      let filter =
        bind_query-given "filter" params.filter received
          (same _ ∙ else₄ _ refl ∙ here₃ (else₂ _ refl ∙ else₁ _ refl ∙ empty _)) in
      let order_by =
        bind_query-given "order_by" params.order_by received
          (same _ ∙ here₄ (else₃ _ refl ∙ else₂ _ refl ∙ else₁ _ refl ∙ empty _)) in
      rw (token, size, filter, order_by)

  pub empty-bind_list :
      (received : Values)
      → IsEmpty received
      → bind_list_policies_params web received
        ≡ ok (record { page_token = none; max_page_size = none; filter = none; order_by = none })
  unfolding bind_list_policies_params
  empty-bind_list received empty = rw (
    (laws.bind_missing "page_token" received (empty _)).0,
    (laws.bind_missing "max_page_size" received (empty _)).1,
    (laws.bind_missing "filter" received (empty _)).0,
    (laws.bind_missing "order_by" received (empty _)).0,
  )

  pub create_query-bind :
      (id : Option String) (values after received : Values)
      → IsEmpty values
      → add_text web "id" id values ≡ ok after
      → Same received after
      → bind_create_policy_params web received ≡ ok (record { id = id })
  unfolding bind_create_policy_params
  create_query-bind id values after received empty h same =
      let (here, others) = add_text-Added "id" id values after h in
      rw (bind_query-given "id" id received (same _ ∙ here (empty _)))

  pub empty-bind_create :
      (received : Values)
      → IsEmpty received
      → bind_create_policy_params web received ≡ ok (record { id = none })
  unfolding bind_create_policy_params
  empty-bind_create received empty = rw ((laws.bind_missing "id" received (empty _)).0)
