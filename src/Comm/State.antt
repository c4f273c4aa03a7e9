-- ===== src/Comm/State.antt =====
-- The shared state of the web pages: struct web_ctrl_comm of webserver_control_comm.h, with the
-- frames of webserver_bulb_ver_frame.h, webserver_opt_frame.h, webserver_eth_frame.h and
-- webserver_e1_frame.h, the board types of gan111_type.h and the tables of the boards that have an
-- interface.
use arm_ucos_proxy.Base.{ℕ, List, [], ◌∷◌, Option, replicate}

abbrev pub max_board_no : ℕ
max_board_no = 9

abbrev pub web_seq_field : ℕ
web_seq_field = 0x33

abbrev pub web_threadid_field : ℕ
web_threadid_field = 0x333

abbrev pub gan111_main_ctrl : ℕ
gan111_main_ctrl = 0x80060132

abbrev pub gan111_8e1 : ℕ
gan111_8e1 = 0x80020008

-- The tables end by a 0.
abbrev pub boards_contain_boards_mng : List ℕ
boards_contain_boards_mng = gan111_main_ctrl ∷ gan111_8e1 ∷ 0 ∷ []

abbrev pub boards_contain_opt : List ℕ
boards_contain_opt = gan111_main_ctrl ∷ 0 ∷ []

abbrev pub boards_contain_eth_ge : List ℕ
boards_contain_eth_ge = gan111_main_ctrl ∷ 0 ∷ []

abbrev pub boards_contain_eth_fe : List ℕ
boards_contain_eth_fe = gan111_main_ctrl ∷ 0 ∷ []

abbrev pub boards_contain_e1 : List ℕ
boards_contain_e1 = gan111_8e1 ∷ 0 ∷ []

abbrev pub max_opt_port_amount : ℕ
max_opt_port_amount = 2

abbrev pub max_eth_ge_port_amount : ℕ
max_eth_ge_port_amount = 2

abbrev pub max_eth_fe_port_amount : ℕ
max_eth_fe_port_amount = 6

abbrev pub max_e1_port_amount : ℕ
max_e1_port_amount = 8

-- struct web_dyb_arg
pub record WebDybArg : Type 0 where
  pub dev_id : ℕ
  pub board : ℕ
  pub intf : ℕ
  pub cmd_id : ℕ
  pub cmd_ext : ℕ
  pub buf : Option (List ℕ)
  pub len : ℕ

-- The fields of a frame's head that this code reads or sets.
pub record FrameHead : Type 0 where
  pub dst_deviceid : ℕ
  pub src_deviceid : ℕ
  pub protocol_ver : ℕ
  pub thread_netid : ℕ
  pub board_index : ℕ
  pub interface_index : ℕ
  pub server_seq : ℕ
  pub cmd_ext : ℕ
  pub cmd_id : ℕ
  pub cmd_status : ℕ
  pub cmd_len : ℕ

-- struct web_dyb_frame, and any frame on the link: a head and bytes.
pub record WebDybFrame : Type 0 where
  pub hdr : FrameHead
  pub body : List ℕ

-- struct web_boards_exist
pub record WebBoardsExist : Type 0 where
  pub exist : ℕ
  pub type : List ℕ

-- struct web_bulb_ver_frm and struct web_bulb_ver
pub record WebBulbVerFrm : Type 0 where
  pub bulb : ℕ
  pub boot_ver : ℕ
  pub cpu_app_ver : ℕ
  pub fpga_ver : ℕ
  pub pcb_ver : ℕ

pub record WebBulbVer : Type 0 where
  pub frame : WebBulbVerFrm
  pub is_set : ℕ

-- struct web_opt, with the bytes of its unions
pub record WebOpt : Type 0 where
  pub config : List ℕ
  pub state : List ℕ
  pub amount : ℕ

-- struct web_eth, with the half words of its unions
pub record WebEth : Type 0 where
  pub ge : List ℕ
  pub ge_amount : ℕ
  pub fe : List ℕ
  pub fe_amount : ℕ

-- struct web_e1, with the bytes of its unions
pub record WebE1 : Type 0 where
  pub config : List ℕ
  pub state : List ℕ
  pub rsv : List ℕ
  pub amount : ℕ

-- struct web_ctrl_comm, the global cr_remote_chosen, and the frames handed to the link, the latest
-- first. A semaphore is its count.
pub record WebCtrlComm : Type 0 where
  pub wait_sem : ℕ
  pub ll_access_mtx : ℕ
  pub frame : WebDybFrame
  pub dev_id : ℕ
  pub boards_exist : WebBoardsExist
  pub bulb_ver : List WebBulbVer
  pub opt : List WebOpt
  pub eth : List WebEth
  pub e1 : List WebE1
  pub cr_remote_chosen : ℕ
  pub sent : List WebDybFrame

-- The values that memset to 0 gives.
abbrev pub zero_head : FrameHead
zero_head = record {
  dst_deviceid = 0;
  src_deviceid = 0;
  protocol_ver = 0;
  thread_netid = 0;
  board_index = 0;
  interface_index = 0;
  server_seq = 0;
  cmd_ext = 0;
  cmd_id = 0;
  cmd_status = 0;
  cmd_len = 0;
}

abbrev pub zero_bulb_ver : WebBulbVer
zero_bulb_ver = record {
  frame = record { bulb = 0; boot_ver = 0; cpu_app_ver = 0; fpga_ver = 0; pcb_ver = 0 };
  is_set = 0;
}

abbrev pub zero_opt : WebOpt
zero_opt = record { config = replicate 8 0; state = replicate 8 0; amount = 0 }

abbrev pub zero_eth : WebEth
zero_eth = record { ge = replicate 4 0; ge_amount = 0; fe = replicate 16 0; fe_amount = 0 }

abbrev pub zero_e1 : WebE1
zero_e1 = record { config = replicate 8 0; state = replicate 8 0; rsv = replicate 16 0; amount = 0 }

-- ctrl_web_control_comm_init, where the memory is there: all clear, and the two semaphores.
unfoldable pub ctrl_web_control_comm_init : WebCtrlComm
ctrl_web_control_comm_init = record {
  wait_sem = 0;
  ll_access_mtx = 1;
  frame = record { hdr = zero_head; body = replicate 256 0 };
  dev_id = 0;
  boards_exist = record { exist = 0; type = replicate 9 0 };
  bulb_ver = replicate 9 zero_bulb_ver;
  opt = replicate 9 zero_opt;
  eth = replicate 9 zero_eth;
  e1 = replicate 9 zero_e1;
  cr_remote_chosen = 0;
  sent = [];
}

-- Values of hj_nm.h, which is not in this repository: the commands and their parameters.
pub record Codes : Type 0 where
  pub setconfig : ℕ
  pub getconfigparam : ℕ
  pub alterid : ℕ
  pub remote_alterid : ℕ
  pub board_exist : ℕ
  pub bulb_ver : ℕ
  pub opt_config : ℕ
  pub opt_state : ℕ
  pub eth_ge_config : ℕ
  pub eth_fe_config : ℕ
  pub e1_config_state : ℕ

-- What the link delivers to ctrl_dyb_frame_capture around a request: before OSSemSet clears
-- wait_sem, and from there on until the task runs again.
pub record Exchange : Type 0 where
  pub early : List WebDybFrame
  pub reply : List WebDybFrame
