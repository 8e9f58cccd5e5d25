-- ===== src/Grpc.antt =====
-- The interceptors and the registry's helpers of rpc/grpcx.
--
-- The metadata of a request is what a Go map gives for a name: the names are in lower case, and a name
-- that is not there gives nothing.
pub mod Interceptor
pub mod Prefix
pub mod Authentic
pub mod Recovery
pub mod Service
mod Tests
use woocoo.Base.{List, Option}
use woocoo.Web.{Text}

abbrev pub Metadata : Type 0
Metadata = Text → Option (List Text)
