-- ===== src/Agent/Server/Run/Phases.antt =====
-- `handle_connection` is what reads the request, and the rest.
use env_proxy.Prelude.{◌≡◌, arith}
use env_proxy.Prelude.Action.{continue}
use env_proxy.Agent.Backend.{Backend}
use env_proxy.Agent.Server.{Conn, Handler, send_response, answer, unsupported, handle_connection}
use env_proxy.Agent.Server.Run.{Request, unknown, asking, receive_request}

-- The rest of `handle_connection`.
abbrev pub respond : {S : Type 0} → Backend S → Request → Handler S (Unit {0})
respond backend (unknown version) = send_response (unsupported version)
respond backend (asking key_buf value_buf) = answer backend key_buf value_buf

pub handle_connection-phases :
    {S : Type 0} (backend : Backend S) (c : Conn S)
    → handle_connection backend c ≡ continue (receive_request c) (respond backend)
unfolding handle_connection receive_request
handle_connection-phases backend c = ground arith
