-- ===== src/Server/Program.antt =====
-- The example server, async_grpc/server/main.cpp: the methods that its services listen for
-- (echo_service_impl.cpp and variable_service_impl.cpp).
use async_sandbox.Prelude.{ℕ, List, [], ◌∷◌}
use async_sandbox.AsyncGrpc.Listening.{ServerOptions}

pub data Method : Type 0 where
  unary_echo client_stream_echo server_stream_echo bidirectional_stream_echo write read del : Method

-- `EchoServiceImpl::StartListening`
abbrev pub echo_methods : List Method
echo_methods = unary_echo ∷ client_stream_echo ∷ server_stream_echo ∷ bidirectional_stream_echo ∷ []

-- `VariableServiceImpl::StartListening`
abbrev pub variable_methods : List Method
variable_methods = write ∷ read ∷ del ∷ []

-- The number of executors comes from the machine.
abbrev pub server_options : ℕ → ServerOptions Method
server_options n = record { services = echo_methods ∷ variable_methods ∷ []; executor_count = n }
