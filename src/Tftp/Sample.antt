-- ===== src/Tftp/Sample.antt =====
-- A firmware, a client at rest and a file, which the examples use.
use arm_ucos_proxy.Base.{ℕ, true, List, [], ◌∷◌, ◌++◌, refl, get_or, replicate, arith}
use arm_ucos_proxy.Tftp.State.{empty, err_ok, Client, Firmware, module_board_type}
use arm_ucos_proxy.Tftp.Packet.{codes}
use arm_ucos_proxy.Tftp.Transfer.{IsServable}

-- A firmware whose image heads have two bytes: the checksum and the program type.
abbrev pub small_head : Firmware
small_head = record {
  head_size = 2;
  head_fits = omega arith;
  board_type = λ head. module_board_type;
  checksum = λ head. get_or head 0 0;
  program_type = λ head. get_or head 1 0;
  flash_limit = 1000;
  user_code_addr = 4096;
  write_page = λ w. 256;
  pbuf_alloc = λ sent n. true;
  udp_sendto = λ sent d. err_ok;
}

abbrev pub idle : Client
idle = record {
  manager = record {
    frame_buffer = replicate 512 0;
    server_ip = 1;
    server_port = 0;
    prev_block = 7;
    cur_block = 7;
    flash_addr = 0;
    check_sum = 9;
    total_file_len = 5;
    file_len = 3;
    update_filehead = [];
    recv_len = 0;
    recv_port = 0;
  };
  update_filename = codes "a.bin";
  update_ssi_status = empty;
  update_cfg = record {
    update_spiflash_checksum = 0;
    update_start_address = 0;
    update_size = 0;
    need_update_flag = 0;
    boot_just_update_flag = 0;
  };
  sent = [];
  flash = [];
  erases = 0;
  saved_cfg = [];
  resets = 0;
}

-- A full block and two bytes: the head says 10, which is the sum of the others.
abbrev pub full_block : List ℕ
full_block = 10 ∷ 1 ∷ 7 ∷ replicate 253 0

abbrev pub last_bytes : List ℕ
last_bytes = 2 ∷ 1 ∷ []

abbrev pub small_file : List ℕ
small_file = full_block ++ last_bytes

abbrev pub small_file-IsServable : IsServable small_head (full_block ∷ []) last_bytes
small_file-IsServable = record {
  writes = λ w. refl;
  head_fits = omega arith;
  head_whole = omega arith;
  full = (refl, tt);
  some_bytes = omega arith;
  short = omega arith;
  limit = omega arith;
  small = omega arith;
  count = omega arith;
  room = omega arith;
  sums = (omega arith, tt);
}
