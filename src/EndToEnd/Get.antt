-- ===== src/EndToEnd/Get.antt =====
-- The command line tool of crates/envproxy-cli/src/main.rs against the server.
use env_proxy.Prelude.{
  ℕ, ◌≤◌, ◌≡◌, refl, sym, ap, ◌∙◌, [], ◌++◌, none, some, Result, ok, err, true, false, ltb, arith,
  length,
}
use env_proxy.Prelude.Bytes.{Bytes, codes}
use env_proxy.Text.Utf8.{is_utf8, from_utf8_lossy, from_utf8_lossy-valid}
use env_proxy.Io.{IoError, Stream}
use env_proxy.Proto.Wire.{encode_request, encode_response, Status, found, not_found, error}
use env_proxy.Agent.Backend.{Backend, Resolved, to_string}
use env_proxy.Agent.Server.{resolve_request, response_of}
use env_proxy.Client.Getenv.{encode_query}
use env_proxy.EndToEnd.{to_server, reply_of, reply_of-encode_query}
use env_proxy.EndToEnd.Exchange.{or_nothing}
use env_proxy.Cli.{query_agent, cmd_get, Outcome, line, failed, report}
use env_proxy.Cli.Answers.{query_agent-encode_response}

abbrev response_status : Resolved → Status
response_status (ok (some v)) = found
response_status (ok none) = not_found
response_status (err e) = error

abbrev response_value : Resolved → Bytes
response_value (ok (some v)) = v
response_value (ok none) = []
response_value (err e) = to_string e

-- What `get` writes for what the backend resolves, and its exit status.
abbrev pub printed : Bytes → Resolved → Outcome
printed key (ok (some v)) = record { stdout = line (from_utf8_lossy v); stderr = []; exit = 0 }
printed key (ok none) = failed (codes "key not found: " ++ key)
printed key (err e) = failed (codes "error: " ++ from_utf8_lossy (to_string e))

response_of-encode_response :
    (r : Resolved) → response_of r ≡ encode_response (response_status r) (response_value r)
unfolding response_of
response_of-encode_response (ok (some v)) = refl
response_of-encode_response (ok none) = refl
response_of-encode_response (err e) = refl

report-printed :
    (key : Bytes) (r : Resolved)
    → report key (record { status = response_status r; value = response_value r }) ≡ printed key r
unfolding report
report-printed key (ok (some v)) = refl
report-printed key (ok none) = refl
report-printed key (err e) = refl

module _ {S : Type 0} (b : Backend S) (s : S) (connect : Bytes → Result IoError Stream)
    (key socket : Bytes) where
  -- A connection to a server of the backend, at which a single `read` finds `k` bytes.
  abbrev pub IsServing : ℕ → Type 0
  IsServing k = connect socket ≡ ok (record (to_server b s) { ready = ok k })

  query_agent_served :
      (encoded message : Bytes) (r : Resolved) (k : ℕ)
      → encode_request key ≡ some encoded
      → IsServing k
      → (resolve_request b key none s).0 ≡ r
      → response_of r ≡ some message
      → length message ≤ k
      → query_agent connect key socket
        ≡ ok (record { status = response_status r; value = response_value r })
  query_agent_served encoded message r k sent serving resolved response room =
      let replied : reply_of b s encoded ≡ message =
        reply_of-encode_query b s key none encoded (unfold encode_query in sent)
        ∙ ap (λ x. or_nothing (response_of x)) resolved
        ∙ ap or_nothing response in
      let stream = record (to_server b s) { ready = ok k } in
      let all : ltb k (length message) ≡ false = ground arith in
      query_agent-encode_response connect key socket encoded (response_value r) message
        (response_status r) stream k sent (sym (response_of-encode_response r) ∙ response) serving
        refl refl replied refl
      ∙ rw all refl

  -- `get` on a key that is UTF-8, against a server of the backend, where the response can be sent and
  -- the single `read` finds all of it: it prints the value that the backend resolves and exits with
  -- 0, or says that there is none, or what went wrong, and exits with 1.
  pub cmd_get-handle_connection :
      (encoded message : Bytes) (k : ℕ)
      → encode_request key ≡ some encoded
      → is_utf8 key ≡ true
      → IsServing k
      → response_of (b.resolve key s).0 ≡ some message
      → length message ≤ k
      → cmd_get connect key socket ≡ ok (printed key (b.resolve key s).0)
  unfolding cmd_get resolve_request
  cmd_get-handle_connection encoded message k sent key_text serving response room =
      let r = (b.resolve key s).0 in
      let resolved : (resolve_request b key none s).0 ≡ r =
        rw (resolve_request, from_utf8_lossy-valid key key_text) refl in
      let answered = query_agent_served encoded message r k sent serving resolved response room in
      rw (answered, cmd_get) (ap ok (report-printed key r))
