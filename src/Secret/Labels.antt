-- ===== src/Secret/Labels.antt =====
-- The labels of an enforcement secret.
use developer_portal_control.Prelude.{String, Option, none, some, ◌≡◌, refl, Option-cases, inl, inr}
use developer_portal_control.Lo.{lookup, override}
use developer_portal_control.Api.Key.{ApiKey}
use developer_portal_control.Deps.{Deps}
use developer_portal_control.Secret.Desired.{own_labels, selector_of, secret_labels}

-- What the selector of the authentication scheme asks of a label.
abbrev pub selected : ApiKey → String → Option String
selected key k = elim (selector_of key) [ none ↦ none | some labels ↦ lookup k labels ]

module _ (d : Deps) (key : ApiKey) where
  or_none : (o : Option String) → o ≡ override o none
  or_none none = refl
  or_none (some v) = refl

  -- Each label of the enforcement secret of a key has the value that the controller gives it, where it
  -- gives one, and else the value that the selector of the key's authentication scheme asks for; so
  -- the selector cannot change the labels by which the controller finds its secrets.
  pub labels-lookup :
      (k : String)
      → lookup k (secret_labels d key) ≡ override (lookup k (own_labels key)) (selected key k)
  unfolding secret_labels
  labels-lookup k = elim (Option-cases (selector_of key)) [
    | inl e ↦ rw (e, secret_labels, selected) (or_none (lookup k (own_labels key)))
    | inr (labels, e) ↦
        rw (e, secret_labels, selected) (d.lo.lookup-assign k labels (own_labels key))
  ]
