-- ===== src/Pages.antt =====
-- The smaller pages: the file name of the update page (USER/module_webserver/webserver_update.c),
-- the choice of the remote end (webserver_cent_rmt.c) and the panel (webserver_panel.c).
pub mod Filename
pub mod Remote
pub mod Panel
