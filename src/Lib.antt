-- ===== src/Lib.antt =====
-- sims: simulated GPU clusters. A command line (cmd/sims, pkg) makes a kind cluster whose nodes
-- pretend to have GPUs, and two operators (operators) simulate the GPU software of a vendor on it.
--
-- How the parts work together. A command of pkg/cli takes its options from flags and from the file
-- that pkg/simsconfig reads; create renders the kind configuration (pkg/config), makes the cluster
-- (pkg/cluster), labels a namespace (pkg/kube), installs the chart of the vendor with the values
-- that it builds (pkg/helm), and waits for the GPUs of the workers; delete undoes this, dashboard
-- keeps a port-forward to Grafana in the background, and status, list and doctor report. On an AMD
-- cluster the controller of operators/fake-rocm-gpu-operator turns a DeviceConfig into a device
-- plugin, a metrics exporter, a status-updater and a node labeller. The device plugin advertises the
-- GPUs of a node to its kubelet, and its annotator writes the devices of each pod into an annotation
-- of the pod. The status-updater rebuilds from these annotations a topology, which pkg/topology
-- keeps in a ConfigMap. The exporter reads the topology and the utilization range of each pod, and
-- shows for each GPU the readings that pkg/simulate makes of it. cmd/rocm-smi-mock prints the same
-- GPUs. On an NVIDIA cluster the sidecar of operators/fake-dcgm-extras shows the GPU pods of its
-- node in slots.
--
-- Files, and the code that each is about:
--   Prelude: names shared by all files; Prelude/Int (Go's integers, with the wrap-around of int32 and
--     int64), Prelude/Float (float64), Prelude/Maps (maps with text keys), Prelude/Results (errors
--     and calls that change the world), Prelude/Commands (commands that may wait forever or fail).
--   Text: Go's strings, strconv, sort and flag, as far as they are used.
--   K8s: the parts of the Kubernetes objects that are read.
--   Config/KindConfig: pkg/config/kind_config.go (buildTemplateData, the template, Render).
--   Simsconfig/Types, Families, Load: pkg/simsconfig (ApplyFamilyDefaults, validate, Parse, Load).
--   Kube/Namespace, Snapshot, Wait, Clients: pkg/kube (ensureNamespace, snapshot, detectVendor, the
--     loops of waitForCapacity and waitForDeploymentAvailable, and the exported functions).
--   Cluster: pkg/cluster/kind.go. Helm/Client, Helm/Actions: pkg/helm.
--   Cli/Select, Values, Create, Command, Monitoring, Delete, Dashboard, Doctor, Status: the commands of
--     pkg/cli; Cli/Host is what they call.
--   Dcgm/Registry, Cache, Sample, Run: operators/fake-dcgm-extras (pkg/dcgm, internal/exporter).
--   Rocm: operators/fake-rocm-gpu-operator. Annotations is pkg/annotations/parse.go, Simulate is
--     pkg/simulate/gpu.go, Metrics is pkg/metrics/registry.go, Topology is pkg/topology/configmap.go,
--     DevicePlugin/Server and Lifecycle are pkg/deviceplugin/server.go and registration.go,
--     DevicePlugin/Annotate is pkg/deviceplugin/annotate.go, StatusUpdater is
--     internal/statusupdater/run.go, Exporter is internal/exporter, SmiMock is
--     cmd/rocm-smi-mock/main.go, Controller is pkg/controller with api/v1alpha1, NodeSelector is
--     parseNodeSelector of internal/controller/run.go, and NodeLabeller is
--     internal/nodelabeller/run.go. DevicePlugin/Watch is ListAndWatch, and DevicePlugin/Rounds
--     Run of the annotator. Subcommands is
--     cmd/fake-rocm-gpu-operator/main.go and the Run functions of internal, from the arguments to what
--     they start.
--   The other files hold the proofs, with what they describe the code by (Config/Described the cluster
--     that options ask for and its YAML, Cli/Disk the temporary files, Cli/Forwarded the port-forward),
--     and Examples the theorems at concrete inputs.
--
-- How the code is read. A function of the source is a function of the same name, and one with an
-- error result returns a Result. A call of an API, of the operating system or of the random
-- generator is a parameter that takes the world and returns it changed; what is used of such a call
-- is a record of laws. A Go map is an association list: a loop over a map gets the entries in the
-- order of the list, so a theorem for all lists covers every order. float64 is a parameter too, with
-- the monotonicity that IEEE 754 gives its operations. A missing map key reads as the zero value, as
-- in the source. A deferred call is a function that runs on the world when the command returns, with
-- an error or without. A command that never returns has no result. A loop with a ticker is run for a
-- number of ticks. The names that %q quotes are taken to need no escapes, a table is its cells, and
-- the log is left out.
--
-- Bounds. int and int64 values are integers; the product of the controller's two int32 wraps around,
-- and so does the sum of a pod's GPU requests at 64 bits. Counts of devices and memory sizes are not
-- bounded. The only loops on fuel are the two that poll a cluster: the fuel is the number of checks,
-- none is a loop that still waits, and enough fuel is one more than the rounds that are not ready.
-- Under a timeout of 120 or 240 seconds a round takes a second or more, so that fuel above 240 is
-- enough for create.
--
-- Not modelled: the cobra declarations, logs, HTTP and gRPC servers, the YAML and JSON codecs, kind,
-- Helm and the Kubernetes client, which are libraries or glue; the manager of the controller and the
-- main functions; the flags of cmd/rocm-smi-mock; generated code.
pub mod Prelude
pub mod Text
pub mod K8s
pub mod Config
pub mod Simsconfig
pub mod Rocm
pub mod Kube
pub mod Dcgm
pub mod Cluster
pub mod Helm
pub mod Cli
mod Examples
