-- ===== src/Lib.antt =====
-- A verification library for resourcelimiter, a Kubernetes operator that keeps a resource quota in
-- each namespace that a ResourceLimiter object names.
--
-- The program has four parts. The API (api/v1beta1, api/v1beta2, pkg/constants) has the two
-- versions of the object and the conversion between them. The controller
-- (controllers/resourcelimiter_controller.go) reads an object of version v1beta2, labels its
-- namespaces, creates, updates or deletes their resource quotas, and writes the status; on deletion
-- it takes this back. The server of the admission webhooks (pkg/cmd) registers them when it starts;
-- they fill objects up and reject those that the controller could not work with, and workloads
-- without resources. The server of the conversion webhook (pkg/conversion) converts the objects that
-- the API server sends, with the conversion of the API.
--
-- Prelude: shared names, Go maps as association lists, lists, and Boolean tests.
-- Api: `Constants` (pkg/constants/constants.go), `V1beta1` and `V1beta2` (the types), `Meta` (the
--   parts of the object's metadata that are read), and `Conversion` (`ConvertTo` is `convert_to`,
--   `ConvertFrom` is `convert_from`; each returns the object that it fills and the error).
--   `Conversion.RoundTrip` and `Conversion.Growth` are about conversions one after the other.
--   `DeepCopy` has the generated methods of zz_generated.deepcopy.go on a heap of cells: a slice, a
--   map or a pointer is an address or nil, `new_copy` is the pattern "make, then fill" that all the
--   methods use, and `DeepCopy.V1beta1` and `DeepCopy.V1beta2` have the structs with their references
--   and, below `Copy`, the methods. The arrays of Go are seen whole, and the elements of a new
--   slice are put into it at the end of its loop, before which nobody reads it. `DeepCopy.Heap` says
--   what a deep copy is, and `Layouts`, `Pointers` and `Slices` build deep copies from deep copies.
-- Controller: `Exec` is the type of a method: a function of the cluster's state, whose result is a
--   value, an error or a panic, beside the state that is left. `Platform` has what the controller
--   calls: quantities, and the client with its helpers as a record of operations.
--   `Platform.View.IsLawful` is what is assumed of the client, one law for each call, for the
--   objects that the cluster holds; a call may fail for no reason in the cluster only if the
--   parameter `Flaky` holds, and a write that fails so may have been made. `Reconcile` has
--   `reconcile`, `setHard` and `updateStatus`, with a function for each branch; `Deletion` has
--   `reconcileDelete`; `Entry` has `Reconcile`, where `Objects`, `Pointer` and `MergeFrom` model
--   that a patch keeps the pointer to its base. The state is written out at each return, so what
--   was written before an error stays.
--   Below `Reconcile`, `Spec` says when a quota is enforced, `Steps`, `Rounds`, `Round` and `Loop`
--   say what one call, one branch, one round and the whole loop do to the cluster, and `Targets` and
--   `Results` state what these need and give. `Entry.Pass` and `Entry.Converges` carry this to one
--   request and to a sequence of them.
--   `Reconcile.Withdrawal` is the loop for a limiter that is not applied. Below `Deletion`, `Labels`
--   says which labels stay, `Success` and `Complete` are about a deletion that can be completed, and
--   `Stuck` about one that cannot, and `Orphans` about that of a limiter that was not applied.
--   `Entry.Unregistered` is about a limiter without the finalizer.
--   `Entry.Ignored` has any sequence of requests and of changes by others as a relation on states,
--   and the modules called `Untouched` say what keeps a namespace as it is. The modules called
--   `Announces` say that a request that leaves resource quotas missing has created one.
--   `Manager` is the set-up, `SetupWithManager` and `eventPredicate`, with controller-runtime as a
--   parameter: `round` hands the events that have come in to the handlers and works on the first
--   request of the queue. `Manager.Watch` has the assumptions on the watches and the queue,
--   `Manager.Queue` and `Manager.Converges` are about the worker that runs on events alone, and
--   `Manager.Heals` about a resource quota that somebody deletes. `Main` is main.go.
-- Webhook: `Admission` (the admission API and the encoders), `Patch` (`createPatchV1beta1`,
--   `createPatchV1beta2` and what they call), `Mutate` (`mutate`), `Validate` (`validate`, whose
--   checks go on, return a response or panic), and `Serve` (`ServeMutate`, `ServeValidate`).
--   `Patch.Laws` reads the patches by the meaning of JSON patches; `Validate.Verdicts` and
--   `Validate.Workloads` describe what the checks accept; `Serve.Verdict` and `Serve.Enforceable`
--   carry this to the handlers and to the controller; `Serve.Race` has the handlers that run at the
--   same time as a step relation, each step with at most one access to the variable `resFormErr`, and
--   `Serve.Race.Traces` orders in which a panic goes astray.
-- ConversionServer (pkg/conversion/conversion.go): `Json` has the values that `encoding/json` makes
--   of an object, and the attempts that go on, return or panic; `Review` the API of conversions and
--   the encoders; `Media` the choice of the serializers (`getInputSerializer`,
--   `getOutputSerializer`), with an arbitrary order for the walk over a map; `Objects` how
--   `doConversion` reads an object, and `Objects.Encoding` how the tags of the structs encode it,
--   with `Objects.Reading` about the two together;
--   `Convert` has `doConversion` and its helpers, and `Serve` has `serveConvert`. `Objects.Lands` and
--   `Convert.Complete` are about requests of any kind, `Convert.Laws` about encoded objects.
--   `Controller.Reconcile.Converted` is about the reconciliation of what was converted.
-- Registration: `Certificates` (`generateCert` of pkg/cmd/cert.go; `Certificates.Reading` has how its
--   buffers are read, with `IsCrypto` as what is assumed of the packages of crypto and `IsIssued` as
--   what the readers check), `Platform` (the API of webhook configurations, with `IsApi` as what is
--   assumed of it), `Configure` (`createOrUpdateWebhookConfiguration` of pkg/cmd/webhookconfig.go; `Process` holds the package variable `webhookConfigName` beside the
--   API), `Start` (`main` of pkg/cmd/main.go, up to the point where it listens), and `Listen` (the
--   rest of it). `Laws` and `Outcomes` are about one registration, `Restart` and `SecondStart` about
--   whole starts. `ConversionServer.Start` is `main` of pkg/conversion/main.go, and `Http` has what
--   both servers call.
-- Tests: an in-memory client that has the laws, small objects, runs on them, and the theorems at
--   these inputs.
--
-- There are no machine integers and no fuel: every loop of the source is over a slice or a map and
-- is recursion on a list, and a text is split by recursion on its characters. A map has its entries
-- in one order here; the results do not depend on it, but for the text of an error where several
-- types of a v1beta1 object are malformed.
--
-- Not modelled: logging, the HTTP servers behind `Http` and what goes on while they shut down, the
-- encoders of JSON and YAML, cryptography, controller-runtime with its queue and its informers, and
-- the registration of schemes
-- (api/v1beta1/groupversion_info.go, api/v1beta2/groupversion_info.go), which only calls a library.
-- Of a namespace, a resource quota, a container and a webhook configuration the model has the parts
-- that the code reads or writes. Other writers of the cluster are left out, but for changes between
-- requests in `Entry.Ignored`: the laws of a call say what it does when nobody else writes during it.
-- In `Manager.Converges` and `Manager.Heals` all events are of one limiter, whose requests are the
-- only ones.
pub mod Prelude
pub mod Api
pub mod Controller
pub mod Webhook
pub mod ConversionServer
pub mod Registration
pub mod Http
mod Tests
