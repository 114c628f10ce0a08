-- ===== src/Approved/RoundTrip.antt =====
-- apikeyrequest_controller.go against the controllers that read its requests:
-- apikeyrequest_status_controller.go, apikey_auto_approval_controller.go and
-- apikey_status_controller.go.
use developer_portal_control.Prelude.{ℕ, true, none, List, ◌≡◌, refl, arith, In, any-true, eq_iff}
use developer_portal_control.Prelude.Outcome.{ok}
use developer_portal_control.Api.Object.{key_of, same_key, same_key_iff}
use developer_portal_control.Api.Key.{ApiKey, api_product_key, holds, condition_pending}
use developer_portal_control.Api.Request.{ApiKeyRequest}
use developer_portal_control.Deps.{Deps}
use developer_portal_control.Client.{Client, Call}
use developer_portal_control.Helper.{Context, api_key_request_name}
use developer_portal_control.Request.{built_request, request_spec, is_current, clean_up}
use developer_portal_control.RequestStatus.{reconcile_request, reconcile_read}
use developer_portal_control.AutoApproval.{auto_approval, with_request, with_product}
use developer_portal_control.KeyStatus.Approvals.{answers}

-- The request has the name, the namespace and the specification of the one that is built for the key.
abbrev pub IsRequestOf : Deps → ApiKey → ApiKeyRequest → Type 0
IsRequestOf d key r =
    (r.name ≡ (built_request d key).name)
    × (r.namespace ≡ (built_request d key).namespace)
    × (r.spec ≡ (built_request d key).spec)

module _ (d : Deps) (c : Client) (key : ApiKey) (r : ApiKeyRequest) (h : List Call) where
  reads_key :
      r.spec ≡ request_spec key
      → reconcile_request c r h
        ≡ reconcile_read c r ((c.snapshot h).get_key (key_of key.metadata)) h
  unfolding reconcile_request
  reads_key e = rw e refl

  reads_product :
      (now : ℕ)
      → r.namespace ≡ (built_request d key).namespace
      → r.spec ≡ request_spec key
      → r.deletion_timestamp ≡ none
      → holds (d.meta.find r.status.conditions condition_pending) ≡ true
      → with_request d c now (ok r) h
        ≡ with_product d c now r ((c.snapshot h).get_product (api_product_key key)) h
  unfolding with_request built_request
  reads_product now n e t p = rw (t, p, n, e) refl

  keeps_request :
      (keys : List ApiKey)
      → In key keys
      → r.spec ≡ request_spec key
      → clean_up d c keys r h ≡ (ok tt, h)
  unfolding clean_up is_current
  keeps_request keys i e =
      rw
        (
          e,
          any-true (λ (k : ApiKey). same_key (key_of k.metadata) (key_of key.metadata)) key keys i
              ((same_key_iff (key_of key.metadata) (key_of key.metadata)).1 refl),
        )
        refl

  is_answer_to :
      (ctx : Context) (now : ℕ)
      → r.name ≡ (built_request d key).name
      → r.namespace ≡ (built_request d key).namespace
      → answers d ctx key (auto_approval now r) ≡ true
  unfolding answers built_request
  is_answer_to ctx now m n = ground (
    arith,
    eq_iff r.namespace (built_request d key).namespace,
    eq_iff r.name (api_key_request_name d.texts key),
  )

  -- The request of a key leads back to the key. Where a request is pending, is not being deleted, and
  -- has the name, the namespace and the specification of the one that is built for a listed key: its
  -- conditions are taken from that very key; whether it is approved automatically is up to the
  -- product of that key; the approval that is made for it answers that key; and the clean-up leaves
  -- the request alone.
  pub request-leads_back :
      (ctx : Context) (now : ℕ) (keys : List ApiKey)
      → IsRequestOf d key r
      → In key keys
      → r.deletion_timestamp ≡ none
      → holds (d.meta.find r.status.conditions condition_pending) ≡ true
      → (reconcile_request c r h
          ≡ reconcile_read c r ((c.snapshot h).get_key (key_of key.metadata)) h)
        × (with_request d c now (ok r) h
            ≡ with_product d c now r ((c.snapshot h).get_product (api_product_key key)) h)
        × (answers d ctx key (auto_approval now r) ≡ true)
        × (clean_up d c keys r h ≡ (ok tt, h))
  unfolding built_request
  request-leads_back ctx now keys (m, n, e) i t p =
      (reads_key e, reads_product now n e t p, is_answer_to ctx now m n, keeps_request keys i e)
