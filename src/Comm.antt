-- ===== src/Comm.antt =====
-- The requests of the web pages to the boards of the device
-- (USER/module_webserver/webserver_control_comm.c and .h). State is struct web_ctrl_comm, Require
-- one exchange with the device, Read and Write the page's requests.
pub mod State
pub mod Require
pub mod Read
pub mod Tables
pub mod Write
pub mod Captures
pub mod Answers
pub mod Rows
pub mod Device
pub mod Responds
pub mod OptTable
pub mod Rounds
pub mod Reads
pub mod Page
pub mod Writes
pub mod E1Table
pub mod EthTable
pub mod VersionTable
pub mod Tidy
pub mod Keeps
pub mod Changes
pub mod Loops
pub mod OneBoard
pub mod Whole
pub mod Sample
mod Examples
