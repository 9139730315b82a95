-- ===== src/Sensor/Samples.antt =====
-- A control plane node for the tests.
use host_scanner.Prelude.{true, false, none, some, List, [], ◌∷◌, ◌++◌, if◌then◌else◌}
use host_scanner.Prelude.Bytes.{Bytes, codes, bytes_eq, has_prefix}
use host_scanner.Prelude.Int.{pos}
use host_scanner.GoError.{eof, not_exist, ok, err}
use host_scanner.Host.{Host, File, Stat}
use host_scanner.Utils.Process.{ProcessDetails}
use host_scanner.Utils.RuntimeNames.{DecodeFile}
use host_scanner.Utils.Service.{Dbus}
use host_scanner.Sensor.Kubelet.{UnmarshalConfig}
use host_scanner.Sensor.Redaction.{field, scalar}
use host_scanner.Sensor.EncryptionConfig.{Codecs}

abbrev pub regular : Stat
regular = record { perm = 384; is_dir = false; is_regular = true; owner = some (0, 0) }

abbrev pub directory : List Bytes → File
directory names = record {
  batches = names ∷ [];
  batches_end = eof;
  content = [];
  content_end = eof;
  info = err eof;
}

abbrev pub host : Host
host = record {
  open_file = λ p.
      if bytes_eq p (codes "/proc")
      then ok (directory (codes "7" ∷ codes "self" ∷ codes "9" ∷ []))
      else if bytes_eq p (codes "/host_fs/etc/kubernetes/pki")
      then ok (directory (codes "ca.key" ∷ codes "ca.crt" ∷ []))
      else err (not_exist p);
  stat = λ p.
      if has_prefix p (codes "/host_fs/etc/kubernetes/pki/")
      then ok regular
      else if bytes_eq p (codes "/proc/7/root/enc.yaml")
      then ok regular
      else err (not_exist p);
  read_file = λ p.
      if bytes_eq p (codes "/proc/7/cmdline")
      then ok (
          codes "kube-apiserver"
          ++ (0 ∷ codes "--encryption-provider-config=/enc.yaml" ++ (0 ∷ [])))
      else if bytes_eq p (codes "/proc/9/cmdline")
      then ok (codes "/usr/bin/kubelet" ++ (0 ∷ []))
      else if bytes_eq p (codes "/proc/7/root/enc.yaml")
      then ok (codes "secret")
      else err (not_exist p);
  read_dir = λ p. err (not_exist p);
}

abbrev pub api_server : ProcessDetails
api_server = record {
  cmd_line = codes "kube-apiserver" ∷ codes "--encryption-provider-config=/enc.yaml" ∷ [] ∷ [];
  pid = pos 7;
}

abbrev pub pki : Bytes
pki = codes "/etc/kubernetes/pki"

-- Codecs that take a text for the name of a document.
abbrev pub codecs : Codecs
codecs = record {
  yaml_unmarshal = λ content doc. (field (codes "name") (scalar content) doc, none);
  json_unmarshal = λ content doc. (doc, some eof);
  yaml_marshal = λ doc. ok (codes "name: x");
}

abbrev pub dbus : Dbus
dbus = record {
  dial = λ address. some (not_exist address);
  auth = none;
  hello = none;
  get_unit_name_by_pid = λ pid. err eof;
}

abbrev pub unmarshal : UnmarshalConfig
unmarshal content = ok (codes "/ca.crt")

abbrev pub decode_file : DecodeFile
decode_file keys path = err (not_exist path)
