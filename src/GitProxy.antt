-- ===== src/GitProxy.antt =====
-- internal/gitproxy: the proxy between the agent's git and the hosting service, which holds each
-- push to the access tier of its repository. The children are the parser of a push's ref commands
-- (Commands), the request handler (Requests), and what they guarantee.
pub mod Commands
pub mod Requests
pub mod Lines
pub mod Parsing
pub mod Acceptance
pub mod Pushes
pub mod Forwarding
pub mod Words
pub mod Encoding
pub mod Allowing
pub mod Lapse
mod Tests
