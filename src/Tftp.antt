-- ===== src/Tftp.antt =====
-- The TFTP client that downloads a firmware image (USER/module_webserver/tftp_client.c and .h).
-- State is its control block and what it hands to the rest of the firmware, Packet the packets it
-- sends, Image the handling of the received bytes, Update the download loop and the client's task,
-- Buffer the bytes of the frame buffer.
pub mod State
pub mod Packet
pub mod Image
pub mod Update
pub mod Sends
pub mod Buffer
pub mod Safety
pub mod Checksum
pub mod Block
pub mod Stored
pub mod Download
pub mod Transfer
pub mod WholeBlocks
pub mod Sample
mod Examples
