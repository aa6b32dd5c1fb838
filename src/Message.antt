-- ===== src/Message.antt =====
-- pkg/base and pkg/conn: the messages of an RTSP connection, and the connection that reads and writes
-- them. A text is the list of its bytes.
pub mod Reader
pub mod Writer
pub mod Decimal
pub mod Header
pub mod Status
pub mod Body
pub mod Request
pub mod Response
pub mod Conn
mod Runs
