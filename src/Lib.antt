-- ===== src/Lib.antt =====
-- The music operator: a Kubernetes controller that brings a MusicService to life as a StatefulSet
-- with a service and an autoscaler, and with a MariaDB, either as one master with replicas or as a
-- Galera cluster.
--
-- Parts and files. The controller (internal/controller/musicservice_controller.go) runs one round
-- for each request: it reads the MusicService, runs the reconcilers one after the other, lets the
-- status manager compute the status from what the server holds, and says when to come back. The
-- reconcilers and the status manager read and write objects through the API server only; the
-- builder is pure.
--   Api           api/v1/musicservice_types.go, groupversion_info.go: the resource
--   Builder       internal/builder/resource_builder.go: services, StatefulSets, autoscalers, scripts
--   Reconciler    internal/reconciler: Storage (storage.go), App and Compare (app.go), Database and
--                 Secret (database.go), and Ensure, the steps that app.go and database.go write out
--                 once for each StatefulSet and service
--   Status        internal/status/manager.go: Conditions, Storage (the warnings), Manager
--   Controller    internal/controller/musicservice_controller.go, internal/tone/formatter.go
--   Provider      internal/database/provider.go
--   Program       cmd/main.go: the scheme, the flags, the options of the manager, the calls of the
--                 set-up; Wiring has the structs that SetupWithManager puts together
--   DeepCopy      api/v1/zz_generated.deepcopy.go: Structs, Memory and Generated (the functions),
--                 Reading (what a struct in memory stands for), All, Separation
-- and, for what these use:
--   Prelude       Boolean tests, int32 and int64 as a signed type over the native numbers, maps as
--                 lists of entries, decimal numbers
--   Kube          the fields of Kubernetes' objects that the program reads or writes, and for the
--                 structs that it compares as a whole those that the API server fills in, with the
--                 remaining ones as one opaque field
--   Exec          effectful code: a function from a state of the world to an outcome (a value, an
--                 error, or a panic) and a state; Exec.Keeps has the rules for invariants,
--                 Exec.Ensures those for what a run may return, Exec.Yields those for the states
--                 that it returns in, Exec.Inversion what a successful run went through
--   Platform      code outside the repository, as parameters: a Library of pure functions
--                 (quantities, owner references, finalizers) and a Client over an unknown state
--                 (reads and writes, events, clock, random source). Platform.Lawful states what is
--                 relied on of a server: reads show what it holds and change nothing, a write that
--                 succeeds stores the object, with what the server fills in, a write touches one key,
--                 and a deleted object is gone or marked as being deleted. Reconciler.Total.Sets
--                 states what is relied on for a round to end: no panic, errors of a given kind, and
--                 objects that have been defaulted and validated.
--                 Reconciler.Success.Responsive states when a server does what can be done: it
--                 creates what is missing and updates what is there.
--   Tests         servers in memory, the proofs that they are lawful or steady, and the theorems at
--                 examples
--
-- Names follow the source in snake case: ReconcileStatefulSet is reconcile_stateful_set, and the
-- receiver's client and builder are the parameters c and lib. An object that Go changes in place
-- is returned; Update returns the object as the server sends it back, as the client decodes the
-- answer into its argument. A dereferenced nil pointer, resource.MustParse of a text that is no
-- quantity, and a negative length in make are the outcome panic. An early return of an error is
-- the outcome err, with the world as the calls before it left it. `config.replicas + 1` wraps like
-- an int32. No loop needs fuel but that of decimal numbers, which is given one more than the number.
--
-- The abstract view of a round is Controller.Rounds.Inventory: the kinds and keys of the objects that
-- a spec calls for, as a list, but for the service "{name}-db-read" of a replicated database, whose
-- errors a round passes over. Controller.Rounds.Quiescence says when a server holds them as desired.
--
-- DeepCopy alone has pointers: its memory is a map from addresses to typed cells, a struct holds the
-- addresses of what it points to, and DeepCopyInto takes the struct behind its receiver and returns
-- the one that it leaves in *out. A slice is nil or the address of a cell with all its elements. The
-- copies of metadata, resource requirements, conditions and times belong to other packages and are
-- parameters.
--
-- Not modelled: log lines; the context; the parser of the command line and the options of the logger;
-- tests; YAML. Quantities of storage are numbers of thousandths, as all the program asks is how they
-- compare; those of CPU and memory stay texts. Outside DeepCopy a nil slice or map and an empty one
-- are the same value, so that reflect.DeepEqual is equality. Times are numbers of which 0 is the zero
-- time. Concurrent writers are not modelled as such: nothing is assumed of the world between two
-- calls beyond the laws named in a theorem.
pub mod Prelude
pub mod Kube
pub mod Api
pub mod Exec
pub mod DeepCopy
pub mod Platform
pub mod Builder
pub mod Reconciler
pub mod Status
pub mod Controller
pub mod Program
pub mod Provider
mod Tests
