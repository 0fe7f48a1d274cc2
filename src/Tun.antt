-- ===== src/Tun.antt =====
-- internal/tunnel/tun: the TUN device over its file (tun_linux.go) and the checks before it is opened
-- (preflight_linux.go). The file, the kernel's answers and the capability words are arguments.
pub mod Device
pub mod Opening
pub mod Preflight
mod Runs
