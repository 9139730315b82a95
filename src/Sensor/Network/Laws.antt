-- ===== src/Sensor/Network/Laws.antt =====
-- The ports of a protocol: those of all its files, or none.
use host_scanner.Prelude.{
  ℕ, ◌≡◌, refl, sym, ◌∙◌, inl, inr, Option, none, some, List, [], ◌∷◌, ◌++◌, append_assoc,
  append-nil,
}
use host_scanner.Prelude.Bytes.{Bytes}
use host_scanner.GoError.{ok, err, Result-cases}
use host_scanner.Host.{Host}
use host_scanner.Sensor.Network.{
  tcp_listening_state, proc_net_tcp_paths, proc_net_udp_paths, proc_net_icmp_paths,
  opened_ports_from, get_opened_ports, unless_error, sense_open_ports,
}

-- Some connections before others that may be missing.
abbrev prepend : {C : Type 0} → List C → Option (List C) → Option (List C)
prepend cs none = none
prepend cs (some ds) = some (cs ++ ds)

abbrev behind : {C : Type 0} → List C → Option (List C) → List C
behind res none = []
behind res (some cs) = res ++ cs

behind-prepend :
    {C : Type 0} (res cs : List C) (o : Option (List C))
    → behind (res ++ cs) o ≡ behind res (prepend cs o)
behind-prepend res cs none = refl
behind-prepend res cs (some ds) = append_assoc res cs ds

module _ {C : Type 0} (proc_net : Bytes → ℕ → List C) (host : Host) where
  -- The connections of all files put together, if each can be read.
  abbrev pub all_ports : List Bytes → Option (List C)
  all_ports [] = some []
  all_ports (p ∷ ps) = elim (host.read_file p) [
    | err e ↦ none
    | ok bytes ↦ prepend (proc_net bytes tcp_listening_state) (all_ports ps)
  ]

  opened_ports_from-all_ports :
      (res : List C) (ps : List Bytes)
      → unless_error (opened_ports_from proc_net host res ps) ≡ behind res (all_ports ps)
  unfolding opened_ports_from
  opened_ports_from-all_ports res [] = sym (append-nil res)
  opened_ports_from-all_ports res (p ∷ ps) = elim (Result-cases (host.read_file p)) [
    | inl (e, r) ↦ rw (r, opened_ports_from, all_ports) refl
    | inr (bytes, r) ↦
        let cs = proc_net bytes tcp_listening_state in
        rw (r, opened_ports_from, all_ports)
          (opened_ports_from-all_ports (res ++ cs) ps ∙ behind-prepend res cs (all_ports ps))
  ]

  abbrev pub or_no_ports : Option (List C) → List C
  or_no_ports none = []
  or_no_ports (some cs) = cs

  -- The ports of each protocol are the connections of all its files put together in order, or none
  -- at all if one of the files cannot be read; one protocol does not change another.
  pub sense_open_ports-all_ports :
      ((sense_open_ports proc_net host).tcp_ports ≡ or_no_ports (all_ports proc_net_tcp_paths))
      × ((sense_open_ports proc_net host).udp_ports ≡ or_no_ports (all_ports proc_net_udp_paths))
      × ((sense_open_ports proc_net host).icmp_ports ≡ or_no_ports (all_ports proc_net_icmp_paths))
  unfolding sense_open_ports get_opened_ports
  sense_open_ports-all_ports =
      (of_paths proc_net_tcp_paths, of_paths proc_net_udp_paths, of_paths proc_net_icmp_paths)
    where
      of_opt : (o : Option (List C)) → behind [] o ≡ or_no_ports o
      of_opt none = refl
      of_opt (some cs) = refl

      of_paths :
          (ps : List Bytes)
          → unless_error (opened_ports_from proc_net host [] ps) ≡ or_no_ports (all_ports ps)
      of_paths ps = opened_ports_from-all_ports [] ps ∙ of_opt (all_ports ps)
