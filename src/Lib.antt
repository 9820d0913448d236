-- ===== src/Lib.antt =====
-- localproxy gives the development servers of a machine names under a local domain: watchers find
-- processes and containers that listen, a registry names them, a proxy serves the names, a dashboard
-- shows them, and a packet capture records their traffic. This library models the parts of it that
-- keep state, and proves what they promise.
--
-- Parts and files, with the Go files from the repository's root:
--
--   Base       the helpers that the parts share: Go strings as lists of bytes (Base/Lists), `%d`
--              (Base/Decimal), the functions of `strconv` (Base/Uint, Base/Atoi), `encoding/hex`
--              (Base/Hex), the functions of `strings` and `filepath` that are called (Base/Text,
--              Base/Suffix, Base/Paths), `sort.Slice` by a key and counting (Base/Sorting), maps
--              (Base/GoMap), signed integers (Base/Integer), buffered channels (Base/Channel), and the
--              last elements of a list (Base/Recent)
--   Net        the parts of net/netip that are compared and stored
--   Discovery  internal/discovery. Types has the records of types.go, WellKnown the table of
--              wellknown.go. Process is the scan of process.go (scan, classifyListener,
--              resolvePathInfo), Watcher what it does with a scan (watch, isServicesChanged,
--              setProcesses, getNewTargets, probe). ProcNet is process_linux.go (parseProcNet,
--              getListeningPorts), Probing is fingerprint.go (ProbeEndpoints). Docker is docker.go:
--              parseContainer, with Docker/Listing for listContainers and Docker/Ports for
--              DiscoverServiceInfo, onServiceDiscovered and derivePorts
--   Proxy      internal/proxy. Route has the record of route.go, L4 is caddy_l4.go (BuildL4App), with
--              L4/Grouping and L4/Servers for the servers it makes and L4/Select for the route that
--              takes a connection; Http is caddy.go (BuildCaddyConfig, BuildFullCaddyConfig)
--   Certs      internal/certs/mkcert.go: EnsureCert, EnsureWildcardCert, GetCert, GetWildcardCert
--   Dashboard  internal/dashboard. Backend has the record of backend.go. LogBuffer and LogManager are
--              the two types of logbuffer.go; LogBuffer/Space is strings.TrimSpace. Packets is the stream
--              of servePackets in packets.go, Detail the page of servePacketDetail. Of server.go, Overview
--              is serveDashboard with its groups (Overview/Page the page itself), Portal is handleRoot,
--              detectFolderGroup and serveCaptivePortal, Logs the handlers of logs, and Mappings those of
--              subdomain mappings. Http has the answer of a handler
--   Registry   internal/registry. Mapping has the records of store.go, Bolt what it relies on. Store
--              has its transactions, with Store/Ports for AllocatePort and ReleasePort, Store/Projects
--              and Store/Mappings for the other methods; Store/ListBolt is a concrete bucket for the
--              tests. Routes has routes.go (UpdateServices, UpdateService, resolveSubdomain), Listing has
--              its getRoutesLocked
--   Tshark     pkg/tshark. Packet has the record of packet.go and Parse its ParseEKPacket; Json has the
--              values of encoding/json and the helpers ekString, ekBool and ekStringSlice; Tcp is tcp.go,
--              PgSql is pgsql.go, Buffer is buffer.go. Of capture.go, Capture is the subscriptions and the
--              delivery, Run the arguments of tshark and the loop over its output
--   Dns        internal/dns/server.go: handleQuery and what it calls, and readUpstreamNameservers
--   Daemon     cmd/localproxyd/caddy_daemon.go. Packets is updatePacketSubscriptions,
--              Events is onProcessesChanged, Routes the certificates and the configuration of
--              onRoutesChanged
--   Config     internal/config/config.go: LoadConfig, SaveConfig, ConfigExists
--   Commands   cmd/localproxy/commands: add.go, remove.go and init.go
--   Hosts      internal/hosts/manager.go: Update and Cleanup
--   Notification
--              internal/notification/notify.go: what a notification says
--
-- How the parts interact: a watcher calls UpdateServices with what it found, and what it found points to
-- process and Docker objects on the heap that the registry reads and writes. The registry asks the
-- store for the mapping of a process's directory (`store_mappings` stands for GetMappingByCwd), and
-- hands the routes and backends to a callback. The capture delivers packets to the subscriptions of
-- their endpoints, and each of these feeds a packet buffer that the dashboard reads. The daemon keeps
-- one subscription and one buffer for the endpoint of every enabled backend, and the log manager one
-- tracer for every log that a backend asks for. The dashboard's handlers write the store of mappings,
-- and the commands the store of projects.
--
-- How state is modelled. A method that runs under a mutex is one function from the state to the
-- result and the new state. The objects that several copies of a service share by pointer (`Process`,
-- `Docker`) and the channels live on heaps, functions from addresses; an operation that allocates
-- takes the fresh address. A Go map is an association list with one entry for each key; since `range`
-- visits a map in no fixed order, the theorems hold for every order of the list. `none` in place of a
-- result is a panic, where a file says so. A failed bbolt transaction rolls back, and a Boolean
-- argument says whether the commit succeeds.
--
-- Bounds and fuel. The scan of AllocatePort takes max_port + 1 - min_port = 10001 rounds, one for each
-- port of the range. A decimal number `n` is printed with fuel n + 1, which is enough since the number
-- shrinks in every round (`scan_d-itoa`). The packet buffer holds 1000 packets and a channel 64; the
-- theorems on the ring hold for every positive size. The log of a backend keeps 10 lines. `trim_space`
-- takes length + 1 rounds from either end, and every round but the last drops a byte. A probe makes
-- three scans at most, one for each of its delays.
--
-- Parameters. The listeners of the machine, the working directory of a process, the answer of a probe
-- and the list of containers are arguments of the watchers' functions, the DNS client one of the DNS
-- server's. bbolt is the record `Bolt` of operations with the laws its documentation gives, and
-- encoding/json at one record type is a `Codec`, and so is YAML at the type of a configuration; the
-- tests instantiate both. A theorem that needs a record to survive the round trip says so. Where the
-- code decodes JSON without a type, the decoder is an argument that gives a value of `Json`, and
-- netip.ParseAddr is an argument too. The library for the hosts file is the record `HostsLibrary`, and
-- what caddy-l4 does with the routes of a port is the record `LayerFour`; how either writes or matches a
-- name is left open.
--
-- Not modelled: log output; the opening of files; the child process of tshark itself; dtrace and the
-- tailing of Docker logs; the watchers' calls of the operating system and of Docker, their timers, the
-- loop over Docker's events, and the forms of dotted paths that filepath.Rel cleans; the DNS server's
-- sockets; the root certificate; HTML templates and HTTP plumbing; the expansion of templates in
-- RenderEnv; and the commands that print, or start and stop processes.
pub mod Base
pub mod Net
pub mod Discovery
pub mod Certs
pub mod Dns
pub mod Proxy
pub mod Dashboard
pub mod Registry
pub mod Tshark
pub mod Daemon
pub mod Hosts
pub mod Notification
pub mod Config
pub mod Commands
