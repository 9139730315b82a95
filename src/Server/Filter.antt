-- ===== src/Server/Filter.antt =====
-- sensor.go: the filter that logs the requests that fail.
use host_scanner.Prelude.{ℕ, Bool, ◌||◌, ltb, leb, Option, none, some, [], ◌∷◌, ◌++◌, if◌then◌else◌}
use host_scanner.Prelude.Bytes.{Bytes, codes}
use host_scanner.GoError.{GoError, error_text}
use host_scanner.Http.{Writer, write_header, write}
use host_scanner.Server.State.{Request, Entry, State, Served, replied, panicked, Handler, Negroni}

-- No success, or more than fifty seconds.
unfoldable pub is_failure : ℕ → ℕ → Bool
is_failure status elapsed = ltb status 200 || leb 300 status || ltb 50000000000 elapsed

abbrev pub bytes_of : Option Bytes → Bytes
bytes_of none = []
bytes_of (some b) = b

-- The writer that keeps what is written, with an empty buffer.
abbrev pub body_log_writer : Writer → Writer
body_log_writer rw = record rw { res_body = some [] }

-- The response on the writer that the filter was given.
abbrev pub given_back : Writer → Writer → Writer
given_back rw blw = record blw { res_body = rw.res_body }

module _ (negroni : Negroni) (r : Request) where
  -- What is logged of a response that was written on a `bodyLogWriter`.
  abbrev pub entry_of : Writer → Entry
  entry_of blw = record {
    method = r.method;
    request_uri = r.request_uri;
    remote_addr = r.remote_addr;
    request_body = r.body;
    http_status = negroni.status blw;
    response_size = negroni.size blw;
    response_body = bytes_of blw.res_body;
  }

  unfoldable pub log_failure : Writer → State → State
  log_failure blw s =
      if is_failure (negroni.status blw) r.elapsed
      then record s { log = entry_of blw ∷ s.log }
      else s

  -- The end of the filter.
  unfoldable pub after_next : Writer → Served → Served
  after_next rw (replied blw s) = replied (given_back rw blw) (log_failure blw s)
  after_next rw (panicked s) = panicked s
  after_next rw Served.out_of_fuel = Served.out_of_fuel

  -- With the error of reading the body the response is written past the `bodyLogWriter`.
  unfoldable pub unless_unreadable : Option GoError → Handler → Handler
  unless_unreadable none next s rw = after_next rw (next s (body_log_writer rw))
  unless_unreadable (some e) next s rw =
      let w = write (codes "Cannot read body: " ++ error_text e) (write_header 400 rw) in
      after_next rw (replied (body_log_writer w) s)

  unfoldable pub filter_n_log_http_errors : Handler → Handler
  filter_n_log_http_errors = unless_unreadable r.body_error
