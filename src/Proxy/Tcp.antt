-- ===== src/Proxy/Tcp.antt =====
-- src/proxy/tcp.rs: the directions of a relay and how a direction ends.
pub mod Watchdog
pub mod Copy
pub mod Relay
pub mod Handle
pub mod Serve
pub mod Active
mod Tests
use Prim.Native.String.{String}

pub data Dir : Type 0 where
  up down : Dir

unfoldable pub label : Dir → String
label up = "up"
label down = "down"

pub data End : Type 0 where
  eof err : End
