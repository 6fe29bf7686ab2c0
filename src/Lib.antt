-- ===== src/Lib.antt =====
-- The policy manager: a service that keeps Rego policies and evaluates requests against them.
--
-- Parts and files
--
-- A request for an evaluation (internal/service/evaluation.go: Evaluation.antt) lists the enabled
-- policies page by page from the store, passes over those whose label selector does not match the
-- request (internal/service/labelmatcher.go: Labels.antt), hands each other one to the policy engine,
-- and applies its decision (internal/opa/evaluation.go: Decision.antt). A decision may reject the
-- request, add constraints on fields, restrict the service providers, patch the specification by a
-- JSON merge patch (mergePatch of evaluation.go: Patch.antt) and choose a provider. The constraints
-- of all policies so far are the constraint context (internal/service/constraints.go):
--   Constraints.antt              ConstraintContext, the errors and the violations
--   Constraints/Keywords.antt     mergeSchemaKeywords, with one function per case of its switch
--   Constraints/Merging.antt      MergeConstraints
--   Constraints/Providers.antt    MergeSPConstraints, ValidateServiceProvider
--   Constraints/Validation.antt   ValidatePatch, getOrCompileSchema, the lookup of a field path
--   Constraints/Views.antt        GetConstraintsMap, GetSPConstraintsMap
--   Value/Copy.antt               deepCopySchemaMap and its fallback
-- The policies themselves are managed by CreatePolicy, GetPolicy, UpdatePolicy and DeletePolicy
-- (internal/service/policy.go: Service.antt, with the checks on its input in Checks.antt), over the
-- store (internal/store/policy.go: Store.antt, its row internal/store/model/policy.go: Policy.antt).
-- ListPolicies and getListOptions are in Listings.antt, with the parsers of its parameters,
-- internal/service/orderby.go in OrderBy.antt and internal/service/filter.go in Filter.antt.
-- The embedded policy engine (internal/opa/engine.go: Opa.antt) compiles all policies of the store
-- after each change and evaluates one by its ID. The handler of the evaluation API
-- (internal/handlers/engine: EngineApi.antt) takes the labels from a request's specification, and
-- makes responses of the service's errors; so do the handlers of the policy API for their service
-- (internal/handlers/v1alpha1: PolicyApi.antt).
-- The API's policy and the row are converted by internal/service/converter.go (Convert.antt).
-- ServiceError and its constructors (internal/service/errors.go) are in Errors.antt.
-- System.antt puts the policy service over the store and the embedded engine, as main.go does,
-- with its start and the changes that requests make; System/Requests.antt is the policy API over
-- it, call by call, System/Evaluations.antt an evaluation over it, and System/Reading.antt a read
-- after a change. Store/Table.antt and Store/Database.antt say what the database is relied on to do with its rows. Process.antt is
-- `run` of cmd/policy-manager/main.go, with its exit codes and its deferred calls of Close, and
-- Process/Servers.antt is runServers: the goroutines of the servers and their channel of errors.
-- The HTTP layer is code generated by oapi-codegen. Http.antt is what it uses of net/http and
-- encoding/json, Http/Web.antt of net/url and of oapi-codegen's runtime, Http/Routes.antt of the
-- router chi.
--   Api.antt, Api/Responses.antt, Api/Strict.antt, Api/Routing.antt
--                                 the server of the policy API (internal/api/server/server.gen.go)
--   Client.antt, Client/Building.antt, Client/Parsing.antt, Client/Calls.antt
--                                 its client (pkg/client/client.gen.go)
--   EngineApi/Server.antt         the server of the evaluation API (internal/api/engine)
--   EngineApi/Client.antt         its client (pkg/engineclient/client.gen.go)
-- System/Remote.antt is the program behind the generated server, HTTP request by HTTP request;
-- Client/Exchange.antt and EngineApi/Exchange.antt put a client and a server together.
-- The other files hold proofs, and say what about in their first lines; Tests holds runs on
-- concrete data.
--
-- How the code is modelled
--
--   * A `map[string]any` is `Fields` of Value.antt: an association list in which the first entry of
--     a key counts. A loop over a map goes through its entries in the order of the list.
--   * A pointer that may be nil is an Option. A (value, error) pair is a Result, or a pair with an
--     Option where the code returns both. A method that changes its receiver returns the new one.
--   * A float64 is a whole multiple of 2^-1074, which each finite one is; NaN and the infinities
--     are not represented.
--   * The store's rows and the engine are the two parts of `World` in Service.antt; every operation
--     returns the new one, on each of its errors too.
--   * The loop over the pages in EvaluateRequest runs on fuel, one unit for each page: a table of
--     1000 n rows at most needs n units, and no table less than one.
--   * What gorm and the database do is a hypothesis (`IsDatabase`): the rows of the table are a view
--     of the database's state, unique under the three indexes, and each call reads or writes them as
--     documented. That writes and queries are answered at all is another one (`IsUp`): without it a
--     rollback can fail, which the code only logs.
--   * The requests that change policies are taken one after the other, and nothing else writes the
--     table, but in System/Interleaving.antt, where their writes and recompilations come in any
--     order, as there is no lock around them. The goroutines of runServers take their steps in any order.
--   * Code outside the repository is a parameter: encoding/json, regexp, deep.Copy, the JSON Schema
--     library and %v are the fields of `Runtime`; gorm with the database is the `Gorm` of
--     Store.antt, with base64 and strconv for its page tokens, and OPA the `Library` of Opa.antt.
--     What a theorem relies on of them is a hypothesis of it. The service sees the store and the
--     engine through the interfaces `PolicyStore` and `Engine` of Service.antt.
--   * Of an HTTP exchange, the URL is a parameter with a path and a query (`Web`, whose assumed
--     behaviour is `IsWeb`), and the router another one (`Router`, `IsRouter`). Paths and patterns
--     are lists of segments. The path is the one that chi routes on: RawPath, or where that is
--     empty the decoded Path. The runtime decodes a parameter of a path in any case, so that one
--     with a percent sign may not be read back as it was sent: nothing is assumed of those. The IDs
--     that the API documents have none. The writer of a response keeps what the first WriteHeader sends. The
--     encodings of the types are parameters (`Codec`); a theorem says for which values it relies on
--     them. A request goes to the handler without middlewares, as the program gives none.
--
-- Process/Setup.antt and Process/Server.antt are what `run` calls to set itself up (internal/config,
-- internal/logging, internal/store/db.go) and the Run of its two servers (internal/apiserver,
-- internal/engineserver), over what the libraries answer.
--
-- Not modelled: logging but for its level, the cancellation of requests, the times of a row beyond
-- their copies, the middlewares of the router, the shutdown of the HTTP servers, whose Serve
-- closes its listener before the deferred call does, the embedded API documents
-- (api/v1alpha1/spec.gen.go), which only a library reads; and the locks of the engine, each
-- operation of which is one step. What the two generated servers and the two generated
-- clients have in common is modelled once.
pub mod Prelude
pub mod Value
pub mod Runtime
pub mod Labels
pub mod Decision
pub mod Patch
pub mod Constraints
pub mod Errors
pub mod Policy
pub mod Evaluation
pub mod Store
pub mod Text
pub mod Convert
pub mod Checks
pub mod Service
pub mod Opa
pub mod EngineApi
pub mod OrderBy
pub mod Filter
pub mod Http
pub mod Listings
pub mod PolicyApi
pub mod Api
pub mod Client
pub mod System
pub mod Process
mod Tests
