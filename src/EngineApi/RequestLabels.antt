-- ===== src/EngineApi/RequestLabels.antt =====
-- The labels under which a request is matched with policies.
use dcm_policy_manager.Prelude.{
  String, Option, none, some, [], ◌==◌, ◌≡◌, refl, sym, ap, ◌∙◌, arith, eq_iff, Result, ok,
  if◌then◌else◌, Assoc, lookup, assign, lookup-assign, eq-cases, inl, inr, ok-injective, subst,
}
use dcm_policy_manager.Value.{Fields, end, field, get, as_string, assert, IsMap, str}
use dcm_policy_manager.Value.Laws.{get-Absent}
use dcm_policy_manager.EngineApi.{
  extract_request_labels, metadata_labels, add_labels, add_label, with_labels,
}

-- `first`, or `second` where it is none
abbrev pub or_else : Option String → Option String → Option String
or_else none second = second
or_else (some a) second = some a

abbrev pub fields_or_none : Option Fields → Fields
fields_or_none none = end
fields_or_none (some labels) = labels

-- spec.metadata.labels, a map without entries where it is missing
abbrev pub labels_of : Fields → Fields
labels_of spec = fields_or_none (metadata_labels spec)

add_label-lookup :
    (k key : String) (label : Option String) (result : Assoc String)
    → lookup key (add_label k label result)
      ≡ (if k == key then or_else label (lookup key result) else lookup key result)
add_label-lookup k key none result = ground arith
add_label-lookup k key (some v) result = lookup-assign k key v result

add_labels-lookup :
    (labels : Fields) (result : Assoc String) (key : String)
    → IsMap labels
    → lookup key (add_labels labels result)
      ≡ or_else (assert as_string (get key labels)) (lookup key result)
unfolding add_labels get
add_labels-lookup end result key w = refl
add_labels-lookup (field k v labels) result key (absent, w) =
    let written = add_label k (as_string v) result in
    add_labels-lookup labels written key w ∙ elim (eq-cases k key) [
      | inl same ↦ ground (
        arith,
        eq_iff k key,
        same,
        add_label-lookup k key (as_string v) result,
        subst (λ j. get j labels ≡ none) same (get-Absent k labels absent),
      )
      | inr other ↦ ground (arith, other, add_label-lookup k key (as_string v) result)
    ]

with_labels-lookup :
    (labels : Option Fields) (result : Assoc String) (key : String)
    → IsMap (fields_or_none labels)
    → lookup key (with_labels labels result)
      ≡ or_else (assert as_string (get key (fields_or_none labels))) (lookup key result)
unfolding get
with_labels-lookup none result key w = refl
with_labels-lookup (some labels) result key w = add_labels-lookup labels result key w

-- If spec.metadata.labels is a map, the label of a key is the text that it has for the key, where
-- it has one, and else for the key "service_type" the service type of the specification; no other
-- key has a label.
pub extract_request_labels-lookup :
    (spec : Fields) (result : Assoc String) (service_type key : String)
    → IsMap (labels_of spec)
    → get "service_type" spec ≡ some (str service_type)
    → extract_request_labels spec ≡ ok result
    → lookup key result
      ≡ or_else
          (assert as_string (get key (labels_of spec)))
          (if "service_type" == key then some service_type else none)
unfolding extract_request_labels lookup
extract_request_labels-lookup spec result service_type key w t e =
    let start : Assoc String = assign "service_type" service_type [] in
    let extracted : ◌≡◌ {A = Result String (Assoc String)}
        (ok (with_labels (metadata_labels spec) start)) (ok result) =
      ground (arith, t, e) in
    ap (lookup key) (sym (ok-injective extracted))
    ∙ with_labels-lookup (metadata_labels spec) start key w
    ∙ ap (or_else (assert as_string (get key (labels_of spec))))
        (lookup-assign "service_type" key service_type [])
