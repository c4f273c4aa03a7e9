-- ===== src/Tftp/State.antt =====
-- The state of the TFTP client: struct tftp_control of tftp_client.h, the status that the update
-- page shows, and a log of what the client hands to the network, the flash and the boot loader.
use arm_ucos_proxy.Base.{ℕ, ◌^◌, ◌≤◌, Bool, List}

-- enum tftp_opcode
pub data Opcode : Type 0 where
  rrq wrq tftp_data ack tftp_error oack : Opcode

abbrev pub opcode_value : Opcode → ℕ
opcode_value rrq = 1
opcode_value wrq = 2
opcode_value tftp_data = 3
opcode_value ack = 4
opcode_value tftp_error = 5
opcode_value oack = 6

-- The two of enum tftp_errorcode that the client sends.
abbrev pub err_illegalop : ℕ
err_illegalop = 4

abbrev pub err_uknown_transfer_id : ℕ
err_uknown_transfer_id = 5

abbrev pub wellknown_port : ℕ
wellknown_port = 69

abbrev pub block_size : ℕ
block_size = 256

abbrev pub flash_page_size : ℕ
flash_page_size = 256

abbrev pub module_board_type : ℕ
module_board_type = 0x800d0001

abbrev pub u32_mod : ℕ
u32_mod = 2 ^ 32

-- enum ssi_status of httpd_ssi.h
pub data SsiStatus : Type 0 where
  read_success write_success invalid_value : SsiStatus
  update_doing update_succeed update_failed : SsiStatus
  empty write_failure : SsiStatus

-- A UDP datagram: the peer's port and the bytes.
pub record Datagram : Type 0 where
  pub port : ℕ
  pub payload : List ℕ

-- lwIP's err_t, as far as the client tells the values apart.
pub data ErrT : Type 0 where
  err_ok err_mem err_other : ErrT

-- struct tftp_control, with the fields of struct tftp_recv_args that the task reads. The head of
-- the image is kept as its bytes.
pub record TftpControl : Type 0 where
  pub frame_buffer : List ℕ
  pub server_ip : ℕ
  pub server_port : ℕ
  pub prev_block : ℕ
  pub cur_block : ℕ
  pub flash_addr : ℕ
  pub check_sum : ℕ
  pub total_file_len : ℕ
  pub file_len : ℕ
  pub update_filehead : List ℕ
  pub recv_len : ℕ
  pub recv_port : ℕ

-- The fields of `update_cfg` that a finished download sets.
pub record UpdateConfig : Type 0 where
  pub update_spiflash_checksum : ℕ
  pub update_start_address : ℕ
  pub update_size : ℕ
  pub need_update_flag : ℕ
  pub boot_just_update_flag : ℕ

-- A call of SPI_Flash_Write_Page_Nret: the address and the page.
pub record PageWrite : Type 0 where
  pub addr : ℕ
  pub page : List ℕ

-- The client's whole state. The last five fields log calls, the latest first.
pub record Client : Type 0 where
  pub manager : TftpControl
  pub update_filename : List ℕ
  pub update_ssi_status : SsiStatus
  pub update_cfg : UpdateConfig
  pub sent : List Datagram
  pub flash : List PageWrite
  pub erases : ℕ
  pub saved_cfg : List UpdateConfig
  pub resets : ℕ

-- What the client takes from the rest of the firmware, whose text is not in this repository.
pub record Firmware : Type 0 where
  -- UpdateFilehead_S: its size, with which it fits the frame buffer behind the header of a packet,
  -- and three of its fields as functions of its bytes
  pub head_size : ℕ
  pub head_fits : head_size ≤ 508
  pub board_type : List ℕ → ℕ
  pub checksum : List ℕ → ℕ
  pub program_type : List ℕ → ℕ
  -- Update_Flash_Memory_size and SPI_Flash_Get_User_Code_Addr
  pub flash_limit : ℕ
  pub user_code_addr : ℕ
  -- the number of bytes that SPI_Flash_Write_Page_Nret reports
  pub write_page : PageWrite → ℕ
  -- whether pbuf_alloc finds room for so many bytes, and what udp_sendto returns, after the
  -- datagrams sent so far
  pub pbuf_alloc : List Datagram → ℕ → Bool
  pub udp_sendto : List Datagram → Datagram → ErrT
