-- ===== src/Server/Tests.antt =====
-- The theorems on the server at concrete requests.
use mathlib.Core.List.{flatten}
use host_scanner.Prelude.{
  ℕ, ◌<◌, ◌≤◌, ◌*◌, ◌^◌, ◌≡◌, ◌⊎◌, refl, false, Option, none, some, List, [], ◌∷◌, length,
}
use host_scanner.Prelude.Bytes.{Bytes, codes, bytes_eq, has_suffix}
use host_scanner.Prelude.FilePath.{clean}
use host_scanner.Prelude.Dict.{lookup}
use host_scanner.GoError.{eof, ok, err, error_text}
use host_scanner.Utils.Users.Caching.{nil-IsRight, HaveSameNames}
use host_scanner.Sensor.Samples.{host, codecs, dbus, unmarshal, decode_file}
use host_scanner.Http.{Writer, new_writer, write, write_header, http_error}
use host_scanner.Host.{Host, File}
use host_scanner.Sensor.KernelVariables.{names_variables}
use host_scanner.Server.Secrets.{IsSafeText, control_plane-IsSafeText}
use host_scanner.Server.Panics.{init_http_router-panic}
use host_scanner.Server.State.{Request, State, replied, Encoders, Node, Negroni}
use host_scanner.Server.Handlers.{init_http_handlers}
use host_scanner.Server.Mux.{serve_mux, find_handler, clean_path}
use host_scanner.Server.Filter.{body_log_writer, given_back}
use host_scanner.Server.Router.{lower, to_lower, caseless, trace, init_http_router, serve}
use host_scanner.Server.Same.{AreSame}
use host_scanner.Server.Uncached.{serve_uncached, serve-serve_uncached}
use host_scanner.Server.Answers.{for_open_ports}
use host_scanner.Server.Answered.{init_http_router_registered}
use host_scanner.Utils.Users.{
  lookup_username_by_uid, lookup_groupname_by_gid, lookup_user, lookup_group,
}
use host_scanner.Server.Unregistered.{IsRefusal, init_http_router_unregistered}
use host_scanner.Server.Readiness.{Machine, setup_readyz, publish, Step, store, Run, here, later}
use host_scanner.Server.Readiness.Laws.{
  IsProbe, IsAnsweredBy, probe_while_running, IsProbe-eventually,
}
use host_scanner.Server.Failures.{
  IsCounting, entry, init_http_router-logged, init_http_router-unreadable,
}

abbrev encoders : Encoders ℕ
encoders = record {
  error = λ e. codes "error";
  version = λ v. v;
  cni = λ i. codes "cni";
  cloud_provider = λ i. codes "cloud";
  control_plane = λ i. codes "plane";
  kube_proxy = λ i. codes "proxy";
  kubelet = λ i. i.cmd_line;
  kernel_variables = λ vs. codes "variables";
  open_ports = λ p. codes "ports";
  linux_security_hardening = λ h. h.app_armor;
}

abbrev node : Node ℕ
node = record {
  host = host;
  encoders = encoders;
  codecs = codecs;
  decode_file = decode_file;
  dbus = dbus;
  unmarshal = unmarshal;
  proc_net = λ text state. [];
  http_get = λ timeout url headers. err eof;
  levels = 3;
}

abbrev status_or_zero : Option ℕ → ℕ
status_or_zero none = 0
status_or_zero (some code) = code

abbrev negroni : Negroni
negroni = record {
  status = λ w. status_or_zero w.code;
  size = λ w. length w.body;
  recover = write_header 500;
}

negroni-IsCounting : IsCounting negroni
negroni-IsCounting = record { status = λ w code e. rw e refl; size = λ w. refl }

abbrev get : Bytes → Request
get path = record {
  method = codes "GET";
  path = path;
  raw_query = [];
  request_uri = path;
  remote_addr = codes "10.0.0.1:4000";
  body = [];
  body_error = none;
  elapsed = 1000;
}

abbrev state : State
state = record { build_version = codes "v1"; is_ready = false; cache = []; log = []; spans = [] }

-- At the second request no directory can be read any more.
abbrev later_node : Node ℕ
later_node = record node { host = record host { read_dir = λ p. err eof } }

abbrev two_requests : List (Node ℕ × Request)
two_requests =
    (node, get (codes "/controlplaneinfo")) ∷ (later_node, get (codes "/KubeletInfo")) ∷ []

host-HaveSameNames : HaveSameNames host host
host-HaveSameNames = record { users = λ uid root. refl; groups = λ gid root. refl }

later-HaveSameNames : HaveSameNames host later_node.host
unfolding lookup_username_by_uid lookup_groupname_by_gid lookup_user lookup_group
later-HaveSameNames = record { users = λ uid root. refl; groups = λ gid root. refl }

serve-serve_uncached_example :
    serve negroni two_requests state ≡ serve_uncached negroni two_requests state
serve-serve_uncached_example =
    serve-serve_uncached negroni host two_requests state
      (host-HaveSameNames, (later-HaveSameNames, tt)) (nil-IsRight host)

init_http_router_registered_example :
    (w : Writer) × (s' : State) × (init_http_router negroni node
        (get (codes "/OpenedPorts"))
        state
        new_writer
      ≡ replied w s')
    × (w.code ≡ some 200)
    × (w.body ≡ codes "ports")
unfolding to_lower lower
init_http_router_registered_example =
    init_http_router_registered node negroni (get (codes "/OpenedPorts")) state for_open_ports 200
      (codes "ports") refl refl refl

init_http_router_unregistered_example :
    (w : Writer) × (s' : State) × (init_http_router negroni node
        (get (codes "/Metrics/"))
        state
        new_writer
      ≡ replied w s')
    × IsRefusal (get (codes "/Metrics/")) (to_lower (codes "/Metrics/")) w
    × AreSame s' state
unfolding init_http_handlers to_lower lower lookup bytes_eq
init_http_router_unregistered_example =
    init_http_router_unregistered negroni node (get (codes "/Metrics/")) state refl refl

abbrev running : (m : Machine) × Run negroni node (setup_readyz state) m
running = (publish (setup_readyz state), later here (store refl))

abbrev probe : Request
probe = get (codes "/readyz")

probe-IsProbe : IsProbe probe
unfolding to_lower lower
probe-IsProbe = record { path = refl; body_error = refl }

probe_while_running_example : IsAnsweredBy negroni node 200 probe running.0.state
probe_while_running_example =
    probe_while_running negroni node state running.0 running.1 probe probe-IsProbe

IsProbe-eventually_example :
    (n : Machine) × ((n ≡ setup_readyz state) ⊎ Step negroni node (setup_readyz state) n)
    × ((k : Machine)
        → Run negroni node n k
        → (r : Request) → IsProbe r
        → IsAnsweredBy negroni node 200 r k.state)
IsProbe-eventually_example = IsProbe-eventually negroni node state (setup_readyz state) here

abbrev missing : Request
missing = get (codes "/metrics")

abbrev not_found_page : Writer
not_found_page = http_error (codes "404 page not found") 404 (body_log_writer new_writer)

init_http_router-logged_example :
    (((404 < 200) ⊎ (300 ≤ 404) ⊎ (50 * 10 ^ 9 < missing.elapsed))
      × (init_http_router negroni node missing state new_writer
          ≡ replied
              (given_back new_writer not_found_page)
              (record (trace (caseless missing) state) {
                log =
                    entry missing 404 (length not_found_page.body) not_found_page.body
                    ∷ (trace (caseless missing) state).log;
              })))
    ⊎ ((200 ≤ 404)
        × (404 < 300)
        × (missing.elapsed ≤ 50 * 10 ^ 9)
        × (init_http_router negroni node missing state new_writer
            ≡ replied (given_back new_writer not_found_page) (trace (caseless missing) state)))
unfolding serve_mux find_handler clean_path has_suffix bytes_eq to_lower lower clean lookup
    init_http_handlers http_error write write_header
init_http_router-logged_example =
    init_http_router-logged negroni negroni-IsCounting node missing state
      (trace (caseless missing) state) not_found_page 404 refl refl refl

abbrev broken : Request
broken = record missing { body_error = some eof }

init_http_router-unreadable_example :
    (w : Writer) × (init_http_router negroni node broken state new_writer
      ≡ replied w (record state { log = entry broken 400 21 [] ∷ [] }))
    × (w.code ≡ some 400)
    × (w.body ≡ codes "Cannot read body: EOF")
unfolding error_text
init_http_router-unreadable_example =
    init_http_router-unreadable negroni negroni-IsCounting node broken state eof refl

control_plane-IsSafeText_example :
    (w : Writer) × (s' : State) × (init_http_router negroni node
        (get (codes "/ControlPlaneInfo"))
        state
        new_writer
      ≡ replied w s')
    × (w.code ≡ some 200)
    × IsSafeText negroni node w.body
unfolding to_lower lower
control_plane-IsSafeText_example =
    control_plane-IsSafeText negroni node (get (codes "/ControlPlaneInfo")) state refl refl

abbrev kernel_dir : File
kernel_dir = record {
  batches = (codes "gone" ∷ []) ∷ [];
  batches_end = eof;
  content = [];
  content_end = eof;
  info = err eof;
}

-- A host whose only kernel variable cannot be stat'ed.
abbrev broken_host : Host
broken_host = record {
  open_file = λ p. ok kernel_dir;
  stat = λ p. err eof;
  read_file = λ p. err eof;
  read_dir = λ p. err eof;
}

abbrev broken_node : Node ℕ
broken_node = record node { host = broken_host }

init_http_router-panic_example :
    init_http_router negroni broken_node (get (codes "/linuxkernelvariables")) state new_writer
    ≡ replied
        (negroni.recover new_writer)
        (trace (caseless (get (codes "/linuxkernelvariables"))) state)
unfolding to_lower lower names_variables flatten
init_http_router-panic_example =
    init_http_router-panic negroni broken_node (get (codes "/linuxkernelvariables")) state 2
      kernel_dir [] (codes "gone") [] [] kernel_dir eof refl refl refl refl refl refl refl refl
