-- ===== src/Lib.antt =====
-- The CSI driver of Thalassa Cloud: block storage for Kubernetes. A controller answers requests for
-- volumes, snapshots and attachments by calls to the Thalassa API, and a node service formats,
-- mounts and expands the volumes of one machine.
--
-- Prelude      names that all share: Go's tests on numbers, `int64` and `int32` with their wrap-around
--              (Prelude/Signed), `strings` (Prelude/Text), maps from texts (Prelude/Labels),
--              `strconv.ParseInt` (Prelude/Decimal), `float64`, `strconv.FormatFloat` and
--              `strings.TrimSuffix` (Prelude/Print)
-- Status       errors: gRPC statuses, wrapped errors, errors of the API's client, panics
-- Errors       driver/errors.go
-- Exec         `(value, error)` results of calls that move a state; Exec/Keeps and Exec/Ensures say
--              what a call preserves, and what holds when it succeeds
-- Capacity     driver/capacity.go, driver/defaults.go: the size for a capacity range, and sizes as
--              texts
-- Pagination   driver/pagination.go
-- Csi          the fields of the CSI messages that the driver uses
-- Iaas         the Thalassa client, the Kubernetes client and the polling function as an interface
-- VolumeType   driver/volumetype.go
-- Driver       the fields of `Driver` in driver/controller.go
-- Capabilities driver/capabilities.go
-- Index        the maps by identity that the listings build
-- Volumes      driver/controller_volumes.go: Request (what is asked of the API), Create, Listing
-- Resize       driver/controller_resize.go
-- Snapshots    driver/controller_snapshots.go: Source, Create, Listing
-- Attachment   driver/controller_attachment.go, driver/machineidentity.go
-- Node         driver/node.go over the interface of driver/mounter.go (Node/Interface), and two
--              implementations of it: driver/mounter.go over the commands and system calls that it
--              makes (Node/Mounter), and driver/mock_mounter.go (Node/Mock); sequences of its calls
--              over the promises of a host (Node/Calls)
-- Config       driver/controller.go and driver/nodedriver.go (the constructors), driver/identity.go,
--              driver/health.go
-- Server       Run of driver/controller.go and RunNode of driver/nodedriver.go: the socket (Server),
--              the goroutines as events (Server/Group), driver/healthcheck (Server/Health)
-- Controller   the requests of the controller as data (driver/controller.go registers the methods that
--              serve them), and any number of them in progress over one API
-- CommandLine  cmd/thalassa-csi-plugin/cmd: the commands and their flags
-- Tests        an API in memory, runs, and an application of each result
--
-- A handler is one function from the driver's configuration and the request to a call: a function
-- from the state of the world to a result and the state after it, so that what was done before an
-- error stays done. The world is the interface `Cloud` or `Host`, whose state is unknown; a law
-- that needs more of it says so, or takes one of the records of promises: ReadsKeep, VolumeStore
-- and NewVolumes of the API (Iaas), LooksKeep and QuietKeep (Node/Interface) and MountTable
-- (Node/Calls/Mounts) of the host. Where a Go function has many steps, the tail of it from a point on is a definition of
-- its own. A message is its format string: what is formatted into it is left
-- out, but the sizes of Capacity. A nil pointer is
-- `none`, and its use the error `panic`.
--
-- Numbers are signed with the wrap-around of their width; Go's `int` has 64 bits. All recursion is
-- structural but that of a client who asks for page after page, which runs on fuel: one request for
-- each element and one more are shown to be enough. `sort.Strings` is an insertion sort, and
-- `strings.EqualFold` is exact where one of its texts is ASCII. A floating-point number is
-- an integer over a power of 2, rounded to 53 bits, for integers below 2 ^ 63. It is
-- printed with at most 20 digits before the point, as many as a number below 10 ^ 20 has.
--
-- The goroutines of a running driver are one state and the events that can happen in it: a run is a
-- list of events, each of which can happen in its turn. The group of goroutines (errgroup) and the
-- gRPC server are vendored; the events follow what they do.
--
-- Requests to the controller run at the same time, and the driver takes no lock. A request in progress
-- is the list of the answers that its calls have had: the code is deterministic, so these settle the
-- next call (Controller/Replay runs the handler against them). An event is a request that comes in,
-- one call of one request, or a change that something else makes to the API. Every handler is shown
-- to be a tree of its calls (Controller/Tree), of a known depth, which ties this to the handlers as
-- functions. A wait asks a given number of times at most. What one request sees beside the others is
-- its handler over the states that the API had at its turns (Controller/Glimpse), and so a theorem on
-- the handler alone says what holds beside other requests.
--
-- Not modelled: the decoding of findmnt's JSON (an operation of the interface `System`), Unmount and
-- GetDeviceName of driver/mounter.go, which only call k8s.io/mount-utils (operations of the host),
-- the parser of URLs, cobra and viper (interfaces), logs, and all vendored code.
pub mod Prelude
pub mod Status
pub mod Errors
pub mod Exec
pub mod Capacity
pub mod Pagination
pub mod Csi
pub mod Iaas
pub mod VolumeType
pub mod Driver
pub mod Capabilities
pub mod Volumes
pub mod Index
pub mod Resize
pub mod Server
pub mod Snapshots
pub mod Attachment
pub mod Tests
pub mod Node
pub mod Config
pub mod CommandLine
pub mod Controller
