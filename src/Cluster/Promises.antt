-- ===== src/Cluster/Promises.antt =====
-- What the API server promises about what it shows.
use developer_portal_control.Prelude.{List, [], ◌≡◌, ap, ◌⊎◌, In}
use developer_portal_control.Prelude.Outcome.{ok}
use developer_portal_control.Api.Key.{ApiKey}
use developer_portal_control.Api.Approval.{ApiKeyApproval}
use developer_portal_control.Client.{
  Call, Snapshot, update_key_status, update_approval_status, create_approval, update_approval,
}

-- Two states of one approval, with one specification.
abbrev pub SaysTheSame : ApiKeyApproval → ApiKeyApproval → Type 0
SaysTheSame a b = (a.namespace ≡ b.namespace) × (a.name ≡ b.name) × (a.spec ≡ b.spec)

abbrev pub said : {a b : ApiKeyApproval} → a ≡ b → SaysTheSame a b
said e = (
  ap (λ (b : ApiKeyApproval). b.namespace) e,
  ap (λ (b : ApiKeyApproval). b.name) e,
  ap (λ (b : ApiKeyApproval). b.spec) e,
)

abbrev pub IsWritten : List Call → ApiKeyApproval → Type 0
IsWritten h a =
    (w : ApiKeyApproval) × (In (create_approval w) h ⊎ In (update_approval w) h) × SaysTheSame w a

-- The status that an approval, or a key, has was written.
abbrev pub IsJudged : List Call → ApiKeyApproval → Type 0
IsJudged h a =
    (v : ApiKeyApproval) × In (update_approval_status v) h
    × (v.namespace ≡ a.namespace)
    × (v.name ≡ a.name)
    × (v.status ≡ a.status)

abbrev pub IsReported : List Call → ApiKey → Type 0
IsReported h k =
    (v : ApiKey) × In (update_key_status v) h
    × (v.namespace ≡ k.namespace)
    × (v.name ≡ k.name)
    × (v.status ≡ k.status)

-- What the API server promises, where the history goes back to the first approval: a read may be
-- stale, but the specification of an approval is one that somebody wrote, and a status is empty, as
-- at the creation of an object, or was written as a status.
pub record Remembers (h : List Call) (s : Snapshot) : Type 0 where
  pub approvals_written :
      (as' : List ApiKeyApproval) (a : ApiKeyApproval)
      → s.list_approvals ≡ ok as'
      → In a as'
      → IsWritten h a
  pub validity_written :
      (as' : List ApiKeyApproval) (a : ApiKeyApproval)
      → s.list_approvals ≡ ok as'
      → In a as'
      → (a.status.conditions ≡ []) ⊎ IsJudged h a
  pub status_written :
      (ks : List ApiKey) (k : ApiKey)
      → s.list_keys ≡ ok ks
      → In k ks
      → (k.status.conditions ≡ []) ⊎ IsReported h k
