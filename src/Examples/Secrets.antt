-- ===== src/Examples/Secrets.antt =====
-- The enforcement secrets, at concrete inputs.
use Prim.Native.String.{count}
use developer_portal_control.Secret.Names.{Collide, names_iff, count-names}
use developer_portal_control.Prelude.{
  ◌+◌, ◌↔◌, sym, ap, List, [], ◌∷◌, ◌≡◌, refl, inl, inr, ◌≢◌, eq_iff, arith, In,
}
use developer_portal_control.Prelude.Outcome.{ok, err, Error, not_found, other}
use developer_portal_control.Api.Key.{ApiKey}
use developer_portal_control.Deps.Reference.{reference_deps, reference_texts}
use developer_portal_control.Prelude.Decide.{differ}
use developer_portal_control.Helper.{get_kuadrant_namespace, api_key_request_name}
use developer_portal_control.Client.{Client, Call, create_secret, delete_secret}
use developer_portal_control.Client.Run.{no_requeue, for_each}
use developer_portal_control.Reconcilers.{reconcile_resource, is_object_tagged_to_delete}
use mathlib.Core.Path.{subst}
use developer_portal_control.Secret.Desired.{
  enforcement_secret, enforcement_secret_name, desired_enforcement_secret,
}
use developer_portal_control.Secret.Reconcile.{reconcile}
use developer_portal_control.Secret.Safety.{IsDue, IsWanted, Lists, reconcile-IsDue}
use developer_portal_control.Secret.Completion.{reconcile_deletes, deletions_blocked}
use developer_portal_control.Lo.{lookup, override}
use developer_portal_control.Secret.Desired.{own_labels, secret_labels}
use developer_portal_control.Secret.Labels.{selected, labels-lookup}
use developer_portal_control.Examples.Cluster.{
  metadata_of, snapshot_with, client_of, pending_key, approved_key, approval, stale_secret,
  consumer_secret,
}

-- One key is approved, and its secret is there.
abbrev client : Client
client = client_of (
    snapshot_with (approved_key ∷ pending_key ∷ []) (approval ∷ []) (stale_secret ∷ [])
      (ok consumer_secret))

-- The same, but the key's secret is not there.
abbrev broken_client : Client
broken_client = client_of (
    snapshot_with (approved_key ∷ pending_key ∷ []) (approval ∷ []) (stale_secret ∷ [])
      (err not_found))

lists :
    Lists reference_deps client "kuadrant-system"
      (approved_key ∷ pending_key ∷ [])
      (stale_secret ∷ [])
unfolding get_kuadrant_namespace
lists = (refl, (λ e. ground (arith, eq_iff "kuadrant-system" "")), refl, refl)

broken_lists :
    Lists reference_deps broken_client "kuadrant-system"
      (approved_key ∷ pending_key ∷ [])
      (stale_secret ∷ [])
unfolding get_kuadrant_namespace
broken_lists = (refl, (λ e. ground (arith, eq_iff "kuadrant-system" "")), refl, refl)

sent : reconcile reference_deps client [] ≡ (
  ok no_requeue,
  delete_secret stale_secret
      ∷ create_secret (enforcement_secret reference_deps approved_key "kuadrant-system" "abc")
      ∷ [],
)
unfolding reconcile get_kuadrant_namespace for_each desired_enforcement_secret reconcile_resource
    is_object_tagged_to_delete
sent = refl

reconcile-IsDue_example :
    IsDue reference_deps client "kuadrant-system"
      (approved_key ∷ pending_key ∷ [])
      (stale_secret ∷ [])
      (delete_secret stale_secret)
reconcile-IsDue_example =
    reconcile-IsDue reference_deps client "kuadrant-system" (approved_key ∷ pending_key ∷ [])
      (stale_secret ∷ []) (delete_secret stale_secret) lists
      (subst (λ x. In (delete_secret stale_secret) x.1) (sym sent) (inl refl))

other_name : enforcement_secret_name reference_texts approved_key ≢ "stale"
unfolding enforcement_secret_name
other_name = differ "devportal-dev-mine-8dee3e06" "stale" refl

other_name_pending : enforcement_secret_name reference_texts pending_key ≢ "stale"
unfolding enforcement_secret_name
other_name_pending = differ "devportal-dev-mine-8dee3e06" "stale" refl

unwanted :
    (key : ApiKey)
    → IsWanted reference_deps (approved_key ∷ pending_key ∷ []) key
    → enforcement_secret_name reference_texts key ≢ "stale"
unwanted key (inl e, a, p) =
    subst (λ k. enforcement_secret_name reference_texts k ≢ "stale") e other_name
unwanted key (inr (inl e), a, p) =
    subst (λ k. enforcement_secret_name reference_texts k ≢ "stale") e other_name_pending
unwanted key (inr (inr i), a, p) = absurd i

reconcile_deletes_example : In (delete_secret stale_secret) (reconcile reference_deps client []).1
reconcile_deletes_example =
    reconcile_deletes reference_deps client "kuadrant-system" (approved_key ∷ pending_key ∷ [])
      (stale_secret ∷ []) no_requeue stale_secret lists (ap (λ x. x.0) sent) (inl refl) unwanted

-- What is reported when the secret of the approved key is not there.
abbrev missing : Error
missing =
    other
      "consumer secret dev/consumer not found for approved APIKey dev/mine - this indicates the secret was deleted after approval or a race condition occurred"

fails :
    (h : List Call)
    → desired_enforcement_secret reference_deps
        (broken_client.snapshot h)
        approved_key
        "kuadrant-system"
      ≡ err missing
unfolding desired_enforcement_secret
fails h = refl

deletions_blocked_example :
    ¬ In (delete_secret stale_secret) (reconcile reference_deps broken_client []).1
deletions_blocked_example =
    deletions_blocked reference_deps broken_client "kuadrant-system"
      (approved_key ∷ pending_key ∷ []) (stale_secret ∷ []) approved_key stale_secret (λ h. missing)
      broken_lists (inl refl, refl, refl) fails

labels-lookup_example :
    lookup "devportal.kuadrant.io/apikey" (secret_labels reference_deps approved_key)
    ≡ override
        (lookup "devportal.kuadrant.io/apikey" (own_labels approved_key))
        (selected approved_key "devportal.kuadrant.io/apikey")
labels-lookup_example = labels-lookup reference_deps approved_key "devportal.kuadrant.io/apikey"

-- Two keys of one plan, which differ in where the dash stands.
abbrev first_key : ApiKey
first_key = record approved_key { metadata = metadata_of "foo-bar" "baz" "u11" }

abbrev second_key : ApiKey
second_key = record approved_key { metadata = metadata_of "foo" "bar-baz" "u12" }

names_iff_example :
    ((enforcement_secret_name reference_texts first_key
        ≡ enforcement_secret_name reference_texts second_key)
      ↔ Collide reference_texts first_key second_key)
    × ((api_key_request_name reference_texts first_key
          ≡ api_key_request_name reference_texts second_key)
        ↔ Collide reference_texts first_key second_key)
names_iff_example = names_iff reference_texts first_key second_key (λ s. refl)

count-names_example :
    (count (api_key_request_name reference_texts first_key) ≡ count "foo-bar" + count "baz" + 10)
    × (count (enforcement_secret_name reference_texts first_key)
        ≡ count "foo-bar" + count "baz" + 20)
count-names_example = count-names reference_texts first_key (λ s. refl)
