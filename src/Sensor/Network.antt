-- ===== src/Sensor/Network.antt =====
-- sensor/network.go: the open ports.
pub mod Laws
use host_scanner.Prelude.{
  ℕ, ◌==◌, Bool, true, false, ◌||◌, Option, none, some, List, [], ◌∷◌, ◌++◌, if◌then◌else◌,
}
use host_scanner.Prelude.Bytes.{Bytes, codes}
use host_scanner.GoError.{GoError, errorf, Result, ok, err}
use host_scanner.Host.{Host}

abbrev pub tcp_listening_state : ℕ
tcp_listening_state = 10

abbrev pub proc_net_tcp_paths : List Bytes
proc_net_tcp_paths = codes "/proc/net/tcp" ∷ codes "/proc/net/tcp6" ∷ []

abbrev pub proc_net_udp_paths : List Bytes
proc_net_udp_paths =
    codes "/proc/net/udp"
    ∷ codes "/proc/net/udp6"
    ∷ codes "/proc/net/udplite"
    ∷ codes "/proc/net/udplite6"
    ∷ []

abbrev pub proc_net_icmp_paths : List Bytes
proc_net_icmp_paths = codes "/proc/net/icmp" ∷ codes "/proc/net/icmp6" ∷ []

-- The connections of three protocols; nil and an empty list are alike.
pub record OpenPortsStatus (C : Type 0) : Type 0 where
  pub tcp_ports : List C
  pub udp_ports : List C
  pub icmp_ports : List C

-- What `SenseOpenPorts` takes of the results: nothing on an error.
abbrev pub unless_error : {C : Type 0} → List C × Option GoError → List C
unless_error (ports, none) = ports
unless_error (ports, some e) = []

-- `C` is `procspy.Connection`, and `proc_net` gives what `Next` of `procspy.NewProcNet` gives call
-- by call for a text and a state: the package weaveworks/procspy is not part of the program.
module _ {C : Type 0} (proc_net : Bytes → ℕ → List C) (host : Host) where
  -- The loop of `getOpenedPorts`, with the connections so far, which come with an error too.
  unfoldable pub opened_ports_from : List C → List Bytes → List C × Option GoError
  opened_ports_from res [] = (res, none)
  opened_ports_from res (p ∷ ps) = elim (host.read_file p) [
    | err e ↦ (res, some (errorf (codes "failed to ReadFile(" ++ (p ++ codes "): ")) e))
    | ok bytes ↦ opened_ports_from (res ++ proc_net bytes tcp_listening_state) ps
  ]

  unfoldable pub get_opened_ports : List Bytes → List C × Option GoError
  get_opened_ports = opened_ports_from []

  unfoldable pub sense_open_ports : OpenPortsStatus C
  sense_open_ports = record {
    tcp_ports = unless_error (get_opened_ports proc_net_tcp_paths);
    udp_ports = unless_error (get_opened_ports proc_net_udp_paths);
    icmp_ports = unless_error (get_opened_ports proc_net_icmp_paths);
  }
