-- ===== src/Secret/Names.antt =====
-- The names of enforcement secrets and of requests: when two keys share one, and how long they are.
use Prim.Native.String.{count}
use text.Mathlib.TextLemmas.{append_cancel_left, append_inj, length-append, append_assoc}
use developer_portal_control.Prelude.{String, ◌+◌, ◌≡◌, refl, sym, ap, ◌∙◌, ◌↔◌, ◌+++◌, arith}
use developer_portal_control.Api.Key.{ApiKey}
use developer_portal_control.Deps.{Texts}
use developer_portal_control.Helper.{api_key_request_name}
use developer_portal_control.Secret.Desired.{enforcement_secret_name}

-- What stands before the hash.
abbrev pub joined : ApiKey → String
joined key = key.namespace +++ "-" +++ key.name

abbrev pub hash_of : Texts → ApiKey → String
hash_of texts key = texts.hash_suffix (key.namespace +++ "/" +++ key.name)

-- The first eight hexadecimal digits of a hash, whichever they are.
abbrev pub HasEightDigits : Texts → Type 0
HasEightDigits texts = (s : String) → count (texts.hash_suffix s) ≡ 8

-- The keys agree in what stands before the hash, and in the hash.
abbrev pub Collide : Texts → ApiKey → ApiKey → Type 0
Collide texts a b = (joined a ≡ joined b) × (hash_of texts a ≡ hash_of texts b)

-- Two texts that end in parts of one length.
append_inj_end : (s t u v : String) → s +++ u ≡ t +++ v → count u ≡ count v → (s ≡ t) × (u ≡ v)
append_inj_end s t u v e n =
    append_inj e (omega (arith, length-append s u, length-append t v, ap count e))

module _ (texts : Texts) where
  request-parts :
      (key : ApiKey) → api_key_request_name texts key ≡ (joined key +++ "-") +++ hash_of texts key
  unfolding api_key_request_name
  request-parts key =
      rw
        (
          append_assoc (joined key) "-" (hash_of texts key),
          append_assoc key.namespace ("-" +++ key.name) ("-" +++ hash_of texts key),
          append_assoc "-" key.name ("-" +++ hash_of texts key),
        )
        refl

  secret-request :
      (key : ApiKey)
      → enforcement_secret_name texts key ≡ "devportal-" +++ api_key_request_name texts key
  unfolding enforcement_secret_name api_key_request_name
  secret-request key = refl

  same_request_name :
      (a b : ApiKey)
      → HasEightDigits texts
      → (api_key_request_name texts a ≡ api_key_request_name texts b) ↔ Collide texts a b
  same_request_name a b eight = (
    (λ e.
        let (p, q) =
          append_inj_end (joined a +++ "-") (joined b +++ "-") (hash_of texts a) (hash_of texts b)
            (sym (request-parts a) ∙ (e ∙ request-parts b)) (eight _ ∙ sym (eight _)) in
        ((append_inj_end (joined a) (joined b) "-" "-" p refl).0, q)),
    (λ (p, q). request-parts a ∙ (rw (p, q) refl ∙ sym (request-parts b))),
  )

  -- Two keys share the name of their enforcement secrets, or that of their requests, exactly if
  -- namespace and name give one text when a dash joins them and their hashes have the same first
  -- eight digits: the names are as good as 32 bits of the hash.
  pub names_iff :
      (a b : ApiKey)
      → HasEightDigits texts
      → ((enforcement_secret_name texts a ≡ enforcement_secret_name texts b) ↔ Collide texts a b)
        × ((api_key_request_name texts a ≡ api_key_request_name texts b) ↔ Collide texts a b)
  names_iff a b eight =
      let (there, back) = same_request_name a b eight in
      (
        (
          (λ e. there (
              append_cancel_left "devportal-" _ _
                (sym (secret-request a) ∙ (e ∙ secret-request b)))),
          (λ s.
              secret-request a ∙ (ap (λ n. "devportal-" +++ n) (back s) ∙ sym (secret-request b))),
        ),
        (there, back),
      )

  count-request :
      (key : ApiKey)
      → HasEightDigits texts
      → count (api_key_request_name texts key) ≡ count key.namespace + count key.name + 10
  count-request key eight = omega (
    arith,
    ap count (request-parts key),
    length-append (joined key +++ "-") (hash_of texts key),
    length-append (joined key) "-",
    length-append key.namespace ("-" +++ key.name),
    length-append "-" key.name,
    eight (key.namespace +++ "/" +++ key.name),
  )

  -- The name of a request is ten characters longer than the namespace and the name of the key
  -- together, and that of an enforcement secret twenty.
  pub count-names :
      (key : ApiKey)
      → HasEightDigits texts
      → (count (api_key_request_name texts key) ≡ count key.namespace + count key.name + 10)
        × (count (enforcement_secret_name texts key) ≡ count key.namespace + count key.name + 20)
  count-names key eight = (
    count-request key eight,
    omega (
      arith,
      count-request key eight,
      ap count (secret-request key),
      length-append "devportal-" (api_key_request_name texts key),
    ),
  )
