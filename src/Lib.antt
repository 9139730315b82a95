-- ===== src/Lib.antt =====
-- The host scanner of kubescape: an HTTP service that runs on every node of a cluster and answers
-- questions on the node from its processes and files.
--
-- Parts.
-- - GoError: the `error` interface and `SenseError` (sensor/error.go).
-- - Host: the operating system, a parameter: what `os.Open`, `os.Stat`, `os.ReadFile` and
--   `os.ReadDir` answer. It is a snapshot, the same for all calls of a request; requests in sequence
--   have one each.
-- - Utils.ColonFile: `readColonFile` (sensor/internal/utils/osuserswrapper.go) over the calls of
--   `bufio.Reader.ReadLine`, with the buffer of 4096 bytes that `bufio.NewReader` makes.
-- - Utils.Users: the rest of that file: the matchers of rows, the lookups of users and groups in
--   {root}/etc/passwd and {root}/etc/group, and the cache of names by root directory, which the
--   functions take and return. Utils.Users.Concurrent has the two cached lookups for any number of
--   goroutines, access by access.
-- - Utils.Process: the search of a process in /proc and the reading of its command line
--   (sensor/internal/utils/process.go).
-- - Utils.FileInfo: what is told of a file (sensor/internal/utils/utils.go,
--   sensor/datastructures/fileinfo.go); Utils.Cached: sequences of code over the cache of names.
-- - Utils.RuntimeNames, Utils.ContainerRuntime: the directory of the CNI configuration
--   (sensor/internal/utils/containerruntime.go); the decoder of TOML files is a parameter.
-- - Utils.Service: the files of the kubelet's service (sensor/internal/utils/service.go); what
--   D-Bus answers is a parameter.
-- - Sensor.Verbose: file infos with logging, and the walk of a directory (sensor/verboseutils.go).
-- - Sensor.ControlPlaneInfo, Sensor.ControlPlane: sensor/controlplane.go, of which Sensor.Redaction
--   has the overwriting of secrets and Sensor.EncryptionConfig what is shown of the encryption
--   configuration; the YAML and JSON codecs are parameters.
-- - Sensor.Kubelet, Sensor.Cni, Sensor.OsRelease, Sensor.Network: the sensors of the files
--   sensor/kubelet.go and sensor/kubeproxy.go, sensor/CNI.go, sensor/osrelease.go, and
--   sensor/network.go.
-- - Sensor.KernelVariables: the walk of /proc/sys/kernel (sensor/kernelvariables.go), with a panic
--   as one of its ends.
-- - Sensor.CloudProvider: the sensor of sensor/cloudProvider.go.
-- - Http: `http.ResponseWriter` and the handlers (httphandlers.go) as functions of what a sensor gave;
--   Http.Logged has what a `bodyLogWriter` (sensor.go) keeps of their writes, and Http.Versions
--   `versionHandler` for any number of goroutines, access by access.
-- - Server: the composition of all parts. Server.State has the request, the state between requests
--   and the parameters, Server.Handlers each handler over its sensor and the table of
--   `initHTTPHandlers`, Server.Answers the status and body that each endpoint promises,
--   Server.Mux `http.ServeMux` for patterns that name one path each,
--   Server.Filter `filterNLogHTTPErrors`, Server.Router `CaselessMatcher` and the chain of
--   `initHTTPRouter` (sensor.go), Server.Readiness the goroutine of `setupReadyz` between requests as
--   a step relation, and Server.Start the calls of `initLogger` and `main`, with zap as a parameter.
-- - Utils.HttpClient: `GetHttpClient` (sensor/internal/utils/globals.go), called by any number of
--   goroutines, as a step relation on the shared variables.
--
-- Conventions. A Go string is a list of bytes. A function with the results (v, error) gives a
-- `Result`. A package variable that the code changes is passed in and returned. The functions of
-- `bytes`, `strings`, `path` and `strconv` that the code calls are written out in Prelude.Bytes,
-- Prelude.FilePath and Prelude.Int. Log messages and contexts are left out. `int` has 64 bits.
--
-- Fuel. `chunks` calls `ReadLine` once for each byte of the file and once more; each call takes a
-- byte at least, so the list is complete. Decimal texts have 20 rounds for 20 digits.
-- The walk of a directory takes one fuel for each of the ten levels that the code allows.
--
-- The walk of the kernel variables takes one fuel for each level of directories.
--
-- Requests. The path of a request is of characters that need no escape in a URL, so that its escaped
-- form and its small letters are those of ASCII, and its method is not CONNECT. A span of the
-- telemetry is recorded by its name alone. Requests follow one another. Those that overlap meet in
-- `BuildVersion`, in the cache of names and in `GetHttpClient`, each of which has a step relation of
-- its own, in which the shared accesses take effect one after the other; the files stay in the one
-- of the cache, and the node stays in Server.Readiness. Go does not promise such an order of accesses
-- without a lock, which are those to the version, to the cache and two to the client.
--
-- Not modelled: what the calls of `main` and `initLogger` do, which is in the packages net/http, zap
-- and otel; the tests, deployment files and documents, which are no code of the program.
pub mod Prelude
pub mod GoError
pub mod Host
pub mod Utils
pub mod Sensor
pub mod Http
pub mod Server
