-- ===== src/Wifi.antt =====
-- src/wifi_manager.c: the Wi-Fi state machine. Its children follow the parts of that file: the
-- stored credentials, the scan cache, the connection attempts, the event handler and the start-up.
pub mod Credentials
pub mod Scan
pub mod Connect
pub mod Events
pub mod Startup
pub mod Invariant
pub mod Protocol
