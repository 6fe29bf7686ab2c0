-- ===== src/System/Remote/Objects.antt =====
-- The response objects that the handlers of internal/handlers/v1alpha1 return. An error of the
-- handlers names the status of its object (internal/handlers/v1alpha1/errors.go).
use dcm_policy_manager.Prelude.{nat_eq, if◌then◌else◌}
use dcm_policy_manager.PolicyApi.{Response, success, failure, ServerPolicy, ServerPolicyList}
use dcm_policy_manager.Api.Responses.{
  ListPoliciesObject, list_policies_200, list_policies_400, list_policies_500, CreatePolicyObject,
  create_policy_201, create_policy_400, create_policy_409, create_policy_500, DeletePolicyObject,
  delete_policy_204, delete_policy_404, delete_policy_500, GetPolicyObject, get_policy_200,
  get_policy_404, get_policy_500, UpdatePolicyObject, update_policy_200, update_policy_400,
  update_policy_404, update_policy_409, update_policy_500,
}

unfoldable pub list_policies_object : Response ServerPolicyList → ListPoliciesObject
list_policies_object (success list) = list_policies_200 list
list_policies_object (failure e) =
    if nat_eq e.status 400 then list_policies_400 e else list_policies_500 e

-- CreatePolicy gives the 201 response no headers, so its location is the empty text.
unfoldable pub create_policy_object : Response ServerPolicy → CreatePolicyObject
create_policy_object (success policy) = create_policy_201 policy ""
create_policy_object (failure e) =
    if nat_eq e.status 400
    then create_policy_400 e
    else if nat_eq e.status 409
    then create_policy_409 e
    else create_policy_500 e

unfoldable pub delete_policy_object : Response (Unit {0}) → DeletePolicyObject
delete_policy_object (success done) = delete_policy_204
delete_policy_object (failure e) =
    if nat_eq e.status 404 then delete_policy_404 e else delete_policy_500 e

unfoldable pub get_policy_object : Response ServerPolicy → GetPolicyObject
get_policy_object (success policy) = get_policy_200 policy
get_policy_object (failure e) = if nat_eq e.status 404 then get_policy_404 e else get_policy_500 e

unfoldable pub update_policy_object : Response ServerPolicy → UpdatePolicyObject
update_policy_object (success policy) = update_policy_200 policy
update_policy_object (failure e) =
    if nat_eq e.status 400
    then update_policy_400 e
    else if nat_eq e.status 404
    then update_policy_404 e
    else if nat_eq e.status 409
    then update_policy_409 e
    else update_policy_500 e
