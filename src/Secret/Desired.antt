-- ===== src/Secret/Desired.antt =====
-- desiredEnforcementSecret and enforcementSecretName.
use developer_portal_control.Prelude.{
  ℕ, String, Option, none, some, List, [], ◌∷◌, ◌==◌, if◌then◌else◌, ◌+++◌,
}
use developer_portal_control.Prelude.Outcome.{Result, ok, err, other, wrapped, is_not_found}
use developer_portal_control.Lo.{lookup}
use developer_portal_control.Api.Object.{fresh_metadata}
use developer_portal_control.Api.External.{Secret}
use developer_portal_control.Api.Key.{ApiKey, is_approved}
use developer_portal_control.Deps.{Deps, Texts}
use developer_portal_control.Client.{Snapshot}
use developer_portal_control.Helper.{key_text}
use developer_portal_control.KeyStatus.Failures.{api_key_secret_key, secret_key}

abbrev pub annotation_plan : String
annotation_plan = "secret.kuadrant.io/plan-id"

abbrev pub annotation_user : String
annotation_user = "secret.kuadrant.io/user-id"

abbrev pub annotation_expires_at : String
annotation_expires_at = "secret.kuadrant.io/expires-at"

abbrev pub enforcement_secret_label : String
enforcement_secret_label = "devportal.kuadrant.io/enforcement"

abbrev pub label_api_product : String
label_api_product = "devportal.kuadrant.io/apiproduct"

abbrev pub label_api_product_namespace : String
label_api_product_namespace = "devportal.kuadrant.io/apiproduct-namespace"

abbrev pub label_api_key : String
label_api_key = "devportal.kuadrant.io/apikey"

abbrev pub label_api_key_namespace : String
label_api_key_namespace = "devportal.kuadrant.io/apikey-namespace"

abbrev pub label_authorino_managed_by : String
label_authorino_managed_by = "authorino.kuadrant.io/managed-by"

unfoldable pub enforcement_secret_name : Texts → ApiKey → String
enforcement_secret_name texts key =
    "devportal-"
    +++ key.namespace
    +++ "-"
    +++ key.name
    +++ "-"
    +++ texts.hash_suffix (key.namespace +++ "/" +++ key.name)

-- The labels that every enforcement secret has.
abbrev pub own_labels : ApiKey → List (String × String)
own_labels key =
    (enforcement_secret_label, "true")
    ∷ (label_api_product, key.spec.api_product_ref.name)
    ∷ (label_api_product_namespace, key.spec.api_product_ref.namespace)
    ∷ (label_api_key, key.name)
    ∷ (label_api_key_namespace, key.namespace)
    ∷ (label_authorino_managed_by, "authorino")
    ∷ []

-- The labels of the selector in the authentication scheme, where there is one.
abbrev pub selector_of : ApiKey → Option (List (String × String))
selector_of key = elim key.status.auth_scheme [
  | none ↦ none
  | some scheme ↦ elim scheme.authentication_spec [ none ↦ none | some spec ↦ spec.selector ]
]

abbrev pub expiry_annotation : Texts → Option ℕ → List (String × String) → List (String × String)
expiry_annotation texts none annotations = annotations
expiry_annotation texts (some t) annotations =
    (annotation_expires_at, texts.rfc3339 t) ∷ annotations

abbrev pub context_of : ApiKey → String
context_of key = key.namespace +++ "/" +++ key.name

module _ (d : Deps) where
  unfoldable pub secret_labels : ApiKey → List (String × String)
  secret_labels key = elim (selector_of key) [
    | none ↦ own_labels key
    | some labels ↦ d.lo.assign labels (own_labels key)
  ]

  unfoldable pub secret_annotations : ApiKey → List (String × String)
  secret_annotations key = expiry_annotation d.texts key.spec.expires_at (
      (annotation_plan, key.spec.plan_tier) ∷ (annotation_user, key.spec.requested_by.user_id) ∷ [])

  unfoldable pub enforcement_secret : ApiKey → String → String → Secret
  unfolding secret_labels secret_annotations enforcement_secret_name
  enforcement_secret key namespace value = record {
    metadata = record (fresh_metadata (enforcement_secret_name d.texts key) namespace) {
      annotations = secret_annotations key;
      labels = secret_labels key;
    };
    type = "Opaque";
    entries = (api_key_secret_key, value) ∷ [];
  }

  unfoldable pub secret_of_entry : ApiKey → String → Option String → Result Secret
  unfolding enforcement_secret
  secret_of_entry key namespace none = err (
      other (
        "consumer secret "
        +++ key_text (secret_key key)
        +++ " is missing 'api_key' entry for approved APIKey "
        +++ context_of key
        +++ " - this indicates the secret was modified after approval or a race condition occurred"))
  secret_of_entry key namespace (some value) =
      if value == ""
      then err (
          other (
            "consumer secret "
            +++ key_text (secret_key key)
            +++ " has empty 'api_key' entry for approved APIKey "
            +++ context_of key
            +++ " - this indicates the secret was modified after approval or a race condition occurred"))
      else ok (enforcement_secret key namespace value)

  unfoldable pub secret_of_read : ApiKey → String → Result Secret → Result Secret
  unfolding secret_of_entry
  secret_of_read key namespace (ok consumer) =
      secret_of_entry key namespace (lookup api_key_secret_key consumer.entries)
  secret_of_read key namespace (err e) =
      if is_not_found e
      then err (
          other (
            "consumer secret "
            +++ key_text (secret_key key)
            +++ " not found for approved APIKey "
            +++ context_of key
            +++ " - this indicates the secret was deleted after approval or a race condition occurred"))
      else err (
          wrapped
            ("failed to read consumer secret "
              +++ key_text (secret_key key)
              +++ " for APIKey "
              +++ context_of key)
            e)

  unfoldable pub desired_enforcement_secret : Snapshot → ApiKey → String → Result Secret
  unfolding secret_of_read
  desired_enforcement_secret s key namespace =
      if is_approved d.meta key
      then secret_of_read key namespace (s.get_secret (secret_key key))
      else err (
          other (
            "trying to compute enforcement secret for APIKey "
            +++ context_of key
            +++ " not approved, this indicates the secret was deleted after approval or a race condition occurred"))
