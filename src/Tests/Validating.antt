-- ===== src/Tests/Validating.antt =====
-- A patch with a constrained field below another one.
use dcm_policy_manager.Prelude.{[], ◌∷◌, ◌≡◌, refl, lookup, assign, concat}
use dcm_policy_manager.Value.{Fields, str, obj, end, field, get}
use dcm_policy_manager.Constraints.{ConstraintContext, new_constraint_context}
use dcm_policy_manager.Constraints.Validation.{
  validate_patch, validate_patch_recursive, get_or_compile_schema, path_below, resource_uri,
  validate_field,
}
use dcm_policy_manager.Constraints.Validation.Soundness.{AllMeet, validate_patch_sound}
use dcm_policy_manager.Tests.Libraries.{library}

abbrev small_disks : ConstraintContext
small_disks = record new_constraint_context {
  constrained_fields_by_field_path = ("disk.size", field "const" (str "small") end) ∷ [];
  policy_id_by_field_path = ("disk.size", "p1") ∷ [];
}

abbrev small_disk : Fields
small_disk = field "disk" (obj (field "size" (str "small") end)) (field "name" (str "web") end)

no_violation : validate_patch library small_disks small_disk ≡ []
unfolding validate_patch validate_patch_recursive validate_field path_below get_or_compile_schema
    resource_uri lookup assign concat get
no_violation = refl

validate_patch_sound_example : AllMeet library small_disks "" small_disk
validate_patch_sound_example = validate_patch_sound library small_disks small_disk no_violation
