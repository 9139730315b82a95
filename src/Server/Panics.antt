-- ===== src/Server/Panics.antt =====
-- A panic on the way of a request.
use mathlib.Core.List.{flatten}
use host_scanner.Prelude.{ℕ, suc, ◌≡◌, ap, ◌∙◌, none, List, [], ◌∷◌, ◌++◌}
use host_scanner.Prelude.Bytes.{Bytes, codes}
use host_scanner.Prelude.FilePath.{path_join}
use host_scanner.GoError.{GoError, ok, err}
use host_scanner.Host.{File}
use host_scanner.Sensor.KernelVariables.{
  KernelVariable, done, names_variables, walk_vars_dir, sense_kernel_variables, proc_sys_kernel_dir,
}
use host_scanner.Sensor.KernelVariables.Panics.{sense_kernel_variables_panic}
use host_scanner.Http.{new_writer}
use host_scanner.Server.State.{Request, State, replied, panicked, Negroni, Node}
use host_scanner.Server.Handlers.{
  respond_outcome, linux_kernel_variables_handler, init_http_handlers,
}
use host_scanner.Server.Filter.{body_log_writer, after_next}
use host_scanner.Server.Router.{to_lower, caseless, trace, or_recover, init_http_router}
use host_scanner.Server.Routes.{init_http_handlers_found, init_http_router_served}

abbrev pub kernel_variables_ep : Bytes
kernel_variables_ep = codes "/linuxkernelvariables"

module _ (negroni : Negroni) {C : Type 0} (node : Node C) where
  -- If an entry of /proc/sys/kernel can be opened and not be stat'ed, and the entries before it give
  -- variables, a request for the kernel variables ends in a panic, from which the server recovers:
  -- what the recovery writes is the answer, nothing is logged as failed, and the state is kept.
  pub init_http_router-panic :
      (r : Request) (s : State) (fuel : ℕ) (kernel : File) (before : List Bytes) (name : Bytes)
      (after : List Bytes) (vars : List KernelVariable) (f : File) (e : GoError)
      → to_lower r.path ≡ kernel_variables_ep
      → r.body_error ≡ none
      → node.levels ≡ suc fuel
      → node.host.open_file proc_sys_kernel_dir ≡ ok kernel
      → flatten kernel.batches ≡ before ++ (name ∷ after)
      → names_variables node.host (walk_vars_dir node.host fuel) proc_sys_kernel_dir before []
        ≡ done vars
      → node.host.open_file (path_join (proc_sys_kernel_dir ∷ name ∷ [])) ≡ ok f
      → f.info ≡ err e
      → init_http_router negroni node r s new_writer
        ≡ replied (negroni.recover new_writer) (trace (caseless r) s)
  unfolding init_http_handlers respond_outcome or_recover after_next
  init_http_router-panic r s fuel kernel before name after vars f e p b l k n d o i =
      init_http_router_served node negroni r kernel_variables_ep
        (linux_kernel_variables_handler node) s new_writer (panicked (trace (caseless r) s))
        (init_http_handlers_found node).1.1.1.1.1.1.0 p b
        (ap
          (λ q.
            respond_outcome node (codes "SenseKernelVariables") q (trace (caseless r) s)
              (body_log_writer new_writer))
          (ap (sense_kernel_variables node.host) l
            ∙ sense_kernel_variables_panic node.host fuel kernel before name after vars f e k n d o
                i))
