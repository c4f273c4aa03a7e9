-- ===== src/Comm/Write.antt =====
-- The pages' requests to configure a board: web_write_opt, web_write_eth and web_write_e1 of
-- webserver_control_comm.c.
use arm_ucos_proxy.Base.{ℕ, ◌%◌, ◌/◌, Bool, List, [], ◌∷◌, none, some, ◌==◌, if◌then◌else◌}
use arm_ucos_proxy.Base.Outcome.{Status, ok, err, Action, done, ◌>>=◌}
use arm_ucos_proxy.Comm.State.{WebDybArg, WebDybFrame, WebCtrlComm, Codes, Exchange}
use arm_ucos_proxy.Comm.Require.{ctrl_require}

-- A reply with another status than 0 is a failure.
unfoldable pub check_status : Status → Action WebCtrlComm Status
check_status err s = done (err, s)
check_status ok s = done (if s.frame.hdr.cmd_status == 0 then ok else err, s)

abbrev pub set_request : ℕ → ℕ → ℕ → ℕ → List ℕ → ℕ → WebDybArg
set_request dev_id board cmd_id cmd_ext buf len = record {
  dev_id = dev_id;
  board = board;
  intf = 0xff;
  cmd_id = cmd_id;
  cmd_ext = cmd_ext;
  buf = some buf;
  len = len;
}

-- The bytes of half words in memory.
unfoldable pub store16s : List ℕ → List ℕ
store16s [] = []
store16s (w ∷ ws) = w % 256 ∷ w / 256 % 256 ∷ store16s ws

module _ (codes : Codes) (link : List WebDybFrame → Exchange) where
  open codes use {setconfig, opt_config, eth_ge_config, eth_fe_config, e1_config_state}

  unfoldable pub web_write_opt : ℕ → List ℕ → Action WebCtrlComm Status
  web_write_opt board buf s =
      (ctrl_require link (set_request s.dev_id board setconfig opt_config buf 8) none
          >>= check_status)
        s

  unfoldable pub web_write_eth : Bool → ℕ → List ℕ → Action WebCtrlComm Status
  web_write_eth ge board buf s =
      let cmd_ext = if ge then eth_ge_config else eth_fe_config in
      let len = if ge then 8 else 32 in
      (ctrl_require link (set_request s.dev_id board setconfig cmd_ext (store16s buf) len) none
          >>= check_status)
        s

  unfoldable pub web_write_e1 : ℕ → List ℕ → Action WebCtrlComm Status
  web_write_e1 board buf s =
      (ctrl_require link (set_request s.dev_id board setconfig e1_config_state buf 32) none
          >>= check_status)
        s
