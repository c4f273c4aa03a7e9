-- ===== src/Boards.antt =====
-- The page of the boards (USER/module_webserver/webserver_boards_mng.c, with the rows of
-- webserver_build_form.c).
pub mod Table
pub mod Lines
pub mod Shown
pub mod Fits
pub mod Keeps
mod Examples
