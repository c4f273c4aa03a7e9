-- ===== src/Admin.antt =====
-- The pages that manage the device itself: the account (USER/module_webserver/webserver_account.c
-- and webserver_login.c), the addresses (webserver_net_config.c), the restart
-- (webserver_reboot.c), and the start of a firmware update (webserver_update.c).
pub mod Account
pub mod Network
pub mod Reboot
pub mod Update
pub mod Waits
mod Examples
