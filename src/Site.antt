-- ===== src/Site.antt =====
-- The tables of handlers (USER/module_webserver/httpd_cgi.c and httpd_ssi.c), over the state of
-- all pages.
pub mod State
pub mod Cgi
pub mod Ssi
pub mod Tags
pub mod Tidy
pub mod CalmTags
pub mod Reach
pub mod Shows
pub mod Boards
mod Examples
