-- ===== src/Server/Rpc.antt =====
-- What a gRPC handler of scheduler/scheduler.go returns: a reply, or a status code.
use distributed_scheduler.Prelude.{String}
use distributed_scheduler.Db.{Error}

pub data Code : Type 0 where
  invalid_argument internal resource_exhausted not_found unauthenticated : Code
  permission_denied unimplemented : Code

pub data Rpc (A : Type 0) : Type 0 where
  reply : A → Rpc A
  status : Code → Rpc A

-- The message of a reply: a text of the handler, or an error's own text.
pub data Message : Type 0 where
  text : String → Message
  error_text : Error → Message
