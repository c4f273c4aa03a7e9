-- ===== src/Upload.antt =====
-- The upload of a file by the browser (USER/module_webserver/webserver_iap.c). The HTTP server
-- hands each received packet to webserver_iap_http_recv before it handles the packet itself.
pub mod State
pub mod Parse
pub mod Reply
pub mod Recv
pub mod Search
pub mod Length
pub mod Steps
pub mod Request
pub mod Session
pub mod Phase
pub mod Sent
mod Examples
