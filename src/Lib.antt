-- ===== src/Lib.antt =====
-- The developer portal controller: a Kubernetes operator that lets developers ask for API keys of
-- published API products, and owners approve them.
--
-- An APIKey asks for access to an APIProduct. For each key the operator keeps an APIKeyRequest in the
-- namespace of the product. An APIKeyApproval answers a request: a person writes it, or the operator
-- where the product approves automatically. From the approvals, the product and the key's own secret
-- follows the status of the key; an approved key gets an enforcement secret in the namespace of
-- Kuadrant, and a key that is no longer approved loses it. The controllers do not call each other:
-- they meet in the resources that one writes and another reads.
--
-- Files, and the code of the repository that they model:
--   Api                api/v1alpha1: the resources (apikey_types.go, apikeyrequest_types.go,
--                      apikeyapproval_types.go, apiproduct_types.go), and those of other projects
--                      with the fields that are read
--   Helper             internal/controller/devportal_helper.go
--   Reconcilers        internal/reconcilers/base_reconcilers.go (ReconcileResource) and
--                      base_mutator.go (Mutator)
--   KeyStatus          internal/controller/apikey_status_controller.go: Failures
--                      (calculateFailedCondition), Approvals (findAPIKeyApproval and the conditions
--                      that follow), Conditions (calculateStatusConditions), Status (calculateStatus),
--                      Reconcile (reconcileStatus, Reconcile); Methods, Phase, Decision, Serviceable,
--                      Reordered, Stability, Expiry and Writes are about them
--   Secret             internal/controller/apikey_secret_controller.go: Desired
--                      (desiredEnforcementSecret), Reconcile; Labels, Names, Computed, Safety,
--                      Completion, Store and Refinement are about them
--   Request            internal/controller/apikeyrequest_controller.go; Due, Writes and
--                      Step are about it
--   RequestStatus      internal/controller/apikeyrequest_status_controller.go (conditionsEqual,
--                      copyConditions); Agreement and Writes are about them
--   AutoApproval       internal/controller/apikey_auto_approval_controller.go; Guards is about it
--   Approval           internal/controller/apikeyapproval_controller.go and
--                      apikeyapproval_status_controller.go; Validity, Ownership and Writes are about
--                      them
--   Approved           apikey_status_controller.go and apikeyrequest_controller.go together; in
--                      Automatic and RoundTrip with apikey_auto_approval_controller.go,
--                      apikeyapproval_status_controller.go and apikeyrequest_status_controller.go
--   Product            internal/controller/apiproduct_controller.go and apiproduct_helper.go: Policies
--                      (findPlanPolicyForAPIProduct, FindAuthPolicyForAPIProduct), OpenApi
--                      (openAPIStatus), Status (calculateStatus, readyCondition), Reconcile; Oidc is
--                      internal/oidc/discovery.go and what calls it, Web the HTTP client; Effective,
--                      Bounds, Fetches, Readiness, Endpoints, Settling, Stable, Issuers, Settled,
--                      Written and Writes are about them
--   Watches            SetupWithManager and enqueueClass of all controllers; Reads is about them
--   Access             the RBAC markers of all controllers; Granted is about them
--   Cluster            the controllers together: histories in which they and people take turns; Runs
--                      says which controller can have made a write, Promises what the API server
--                      remembers; Approvals and Origins are about histories, Still and Rest about
--                      a cluster on which the operator has nothing left to do
--   Main               cmd/main.go: the flags, the options of the servers, the start of the manager;
--                      Plan, Start and Tls are about it
--   Prelude            shared names, tests into Bool, lists, errors and results
--   Meta, Lo, Deps     the packages that the controllers call and the repository does not contain, as
--                      parameters with the laws of their documentation; each has an instance in a
--                      module Reference, on which the examples run
--   Client             the API server as the controllers see it, the runs that read and write it, and
--                      what it is for a run to send only certain writes
--   Examples           a cluster, and the theorems applied to it
--
-- How code becomes definitions. A Reconcile is a function (`Run`) of the writes that it has made so
-- far; it returns its result or error and those writes with its own added, newest first. A read asks
-- the client for its snapshot after these writes, and a write records itself and takes the client's
-- answer, which may be any error: conflicts and failures are answers, and nothing is assumed of the
-- API server. A chain of checks with early returns is a function per check, on the answer of the
-- read before it. A loop is recursion on the list that it ranges over, so no fuel is needed and every
-- definition is total.
--
-- Conventions:
--   - errors are kept by the reason for which the code tests them (not found, conflict, already
--     exists), others by their text, with the wrapping of `%w`;
--   - times are nanoseconds as natural numbers, after an epoch before all of them; Sub of two of them
--     stops at the greatest 64-bit duration; one reconcile reads the clock once;
--   - generations are natural numbers; resource versions are left out;
--   - a Go map is the list of its entries, of which a search finds one by its key; where the order in
--     which a range visits them matters, in the methods of an authentication scheme, each range has an
--     order of its own, which is a parameter (Ranges in Api/External) that belongs to what a reconcile
--     meets: to the snapshot in KeyStatus and to Web in Product; nil and empty maps and slices are one;
--   - parts of resources of other projects that are only copied (limits, credentials) are kept as
--     text;
--   - Semantic.DeepEqual decides equality; SetControllerReference, where it succeeds, adds the owner
--     and changes nothing else; SHA-256 and the formats of times are functions of which nothing is
--     assumed;
--   - HTTP exchanges and the decoding of JSON are answers of a parameter, of which nothing is
--     assumed; a body is text, whose length counts bytes;
--   - where a theorem speaks of the secrets that exist after a reconcile, what an accepted write does to
--     the store is a hypothesis (Secret/Store), with an instance among the examples;
--   - logging is left out.
--
-- Main is a function of the values of the flags and of the environment, and of how each call is
-- answered; it records its calls, newest first, and os.Exit(1) is the result `none`.
--
-- Not modelled: the registration of types in the scheme (init in cmd/main.go), the timeouts of the HTTP
-- client, the queues and caches of the runtime, generated deep copies, manifests and end-to-end tests,
-- which hold none of the controllers' logic.
pub mod Prelude
pub mod Meta
pub mod Lo
pub mod Api
pub mod Deps
pub mod Client
pub mod Helper
pub mod Reconcilers
pub mod Secret
pub mod Request
pub mod RequestStatus
pub mod AutoApproval
pub mod Approval
pub mod KeyStatus
pub mod Approved
pub mod Product
pub mod Watches
pub mod Access
pub mod Cluster
pub mod Main
pub mod Examples
