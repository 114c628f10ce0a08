-- ===== src/Examples/Manager.antt =====
-- The start of the manager and the kinds that the controllers watch, at concrete inputs.
use developer_portal_control.Prelude.{
  String, none, some, [], ◌∷◌, ◌≡◌, refl, true, false, ◌+++◌, any, ◌==◌, if◌then◌else◌,
}
use developer_portal_control.Prelude.Outcome.{ok, err, other}
use developer_portal_control.Deps.Reference.{reference_deps}
use developer_portal_control.Product.Web.{Web, answered}
use developer_portal_control.Client.{Client, update_product_status}
use developer_portal_control.Main.{
  Flags, default_flags, World, Watcher, TlsConfig, Parsed, invalid, natural, run_main,
  manager_options, add_readyz, start, certificate_watcher, set_up_controllers, add_if_any,
}
use developer_portal_control.Main.Plan.{plan, preparation}
use developer_portal_control.Main.Start.{Ends, main-Ends, started_last, is_start, Succeeds, trail}
use developer_portal_control.Main.Tls.{apply_all, expected, servers-eq}
use developer_portal_control.Product.Reconcile.{reconcile as reconcile_products}
use developer_portal_control.Request.{reconcile as reconcile_requests}
use developer_portal_control.RequestStatus.{reconcile as reconcile_request_statuses}
use developer_portal_control.Approval.{reconcile_owners, reconcile_statuses}
use developer_portal_control.AutoApproval.{reconcile as reconcile_answer}
use developer_portal_control.Secret.Reconcile.{reconcile as reconcile_secrets}
use developer_portal_control.KeyStatus.Reconcile.{reconcile as reconcile_keys}
use developer_portal_control.Watches.{
  product_setup, approval_setup, approval_status_setup, request_setup, triggers, restricted,
}
use developer_portal_control.Watches.Reads.{watched_reads}
use developer_portal_control.Access.{
  is_granted, within, product_rules, request_rules, key_status_rules, secret_rules,
  approval_status_rules, request_status_rules, auto_approval_rules, approval_rules,
}
use developer_portal_control.Access.Granted.{writes-within}
use developer_portal_control.Examples.Orders.{in_order}
use developer_portal_control.Examples.Cluster.{cluster, client_of, request, product}

-- The metrics server has a certificate.
abbrev flags : Flags
flags = record default_flags { metrics_cert_path = "certs" }

abbrev join : String → String → String
join a b = a +++ "/" +++ b

-- Of one text.
abbrev atoi : String → Parsed
atoi s = if s == "1024" then natural 1024 else invalid

abbrev succeeds : World
succeeds h s = ok tt

-- The second check cannot be added.
abbrev fails : World
fails h add_readyz = err (other "no check")
fails h s = ok tt

started : (run_main succeeds join atoi flags "1024" []).0 ≡ some tt
unfolding run_main certificate_watcher set_up_controllers add_if_any
started = refl

main-Ends_example :
    Ends fails (plan join atoi flags "1024") [] (run_main fails join atoi flags "1024" [])
main-Ends_example = main-Ends fails join atoi flags "1024"

start_called : any is_start (run_main succeeds join atoi flags "1024" []).1 ≡ true
unfolding run_main certificate_watcher set_up_controllers add_if_any
start_called = refl

started_last_example :
    Succeeds succeeds (preparation join atoi flags "1024") []
    × ((run_main succeeds join atoi flags "1024" []).1
        ≡ start ∷ trail (preparation join atoi flags "1024") [])
started_last_example = started_last succeeds join atoi flags "1024" start_called

abbrev config : TlsConfig
config = record { next_protos = "h2" ∷ "http/1.1" ∷ []; get_certificate = none }

abbrev watcher : Watcher
watcher = record { cert = "certs/tls.crt"; key = "certs/tls.key" }

servers-eq_example :
    let options = manager_options flags none (some watcher) in
    (apply_all options.webhook_tls_opts config ≡ expected flags none config)
    × (apply_all options.metrics.tls_opts config ≡ expected flags (some watcher) config)
    × (options.metrics.authenticates ≡ options.metrics.secure_serving)
servers-eq_example = servers-eq flags none (some watcher) config

abbrev client : Client
client = client_of cluster

abbrev web : Web
web = record {
  exchange = λ h url. answered 200 (ok "{}");
  decode = λ body. err (other "EOF");
  ranges = λ h. in_order;
}

watched_reads_example :
    (reconcile_products reference_deps (restricted (triggers product_setup) client) web 100 512 []
      ≡ reconcile_products reference_deps client web 100 512 [])
    × (reconcile_requests reference_deps (restricted (triggers request_setup) client) []
        ≡ reconcile_requests reference_deps client [])
    × (reconcile_owners reference_deps (restricted (triggers approval_setup) client) []
        ≡ reconcile_owners reference_deps client [])
    × (reconcile_statuses reference_deps (restricted (triggers approval_status_setup) client) 100 []
        ≡ reconcile_statuses reference_deps client 100 [])
watched_reads_example = watched_reads reference_deps client [] web 100 512

writes-within_example :
    (within product_rules (reconcile_products reference_deps client web 100 512 []).1 ≡ true)
    × (within key_status_rules (reconcile_keys reference_deps client 100 []).1 ≡ true)
    × (within secret_rules (reconcile_secrets reference_deps client []).1 ≡ true)
    × (within request_rules (reconcile_requests reference_deps client []).1 ≡ true)
    × (within request_status_rules (reconcile_request_statuses client []).1 ≡ true)
    × (within approval_rules (reconcile_owners reference_deps client []).1 ≡ true)
    × (within approval_status_rules (reconcile_statuses reference_deps client 100 []).1 ≡ true)
    × (within auto_approval_rules
          (reconcile_answer reference_deps client 100
            (record { namespace = "shop"; name = request.name })
            []).1
        ≡ true)
writes-within_example =
    writes-within reference_deps client web 100 512
      (record { namespace = "shop"; name = request.name })

-- The requests controller may not write the status of a product.
not_within : within request_rules (update_product_status product ∷ []) ≡ false
unfolding within is_granted
not_within = refl
