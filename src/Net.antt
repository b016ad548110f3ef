-- ===== src/Net.antt =====
-- What the program uses of Go's strings, strconv and net on host:port texts. A text is its bytes.
pub mod Text
pub mod Number
pub mod HostPort
