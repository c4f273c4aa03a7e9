-- ===== src/Ports.antt =====
-- The pages of the optical, ethernet and E1 ports (USER/module_webserver/webserver_opt.c,
-- webserver_eth.c and webserver_e1.c): what a page shows, and what a submitted form sends to a board.
pub mod Text
pub mod Decimal
pub mod State
pub mod Opt
pub mod E1
pub mod Eth
pub mod Lines
pub mod Digits
pub mod PageText
pub mod Columns
pub mod PageReads
pub mod E1Reads
pub mod EthText
pub mod EthRows
pub mod EthReads
pub mod Settings
pub mod Forms
pub mod E1Forms
pub mod EthForms
pub mod Submit
pub mod E1Submit
pub mod EthSubmit
pub mod Waits
pub mod Shown
pub mod Keeps
pub mod Answers
mod Examples
