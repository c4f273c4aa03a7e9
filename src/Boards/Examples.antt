-- ===== src/Boards/Examples.antt =====
-- The theorems about the boards' page on a device with two boards.
use arm_ucos_proxy.Base.{ℕ, suc, ◌≡◌, refl, arith}
use arm_ucos_proxy.Base.Outcome.{done}
use arm_ucos_proxy.Tftp.Packet.{codes}
use arm_ucos_proxy.Comm.State.{WebCtrlComm}
use arm_ucos_proxy.Comm.Responds.{present}
use arm_ucos_proxy.Comm.Sample.{some_codes, example_link, example_device, start}
use arm_ucos_proxy.Ports.Text.{Text}
use arm_ucos_proxy.Boards.Table.{board_line_ssi_handler, board_line1_ssi_handler}
use arm_ucos_proxy.Boards.Shown.{page_boards, line_of, HasVersions, board_lines-Shown}

-- "1.2", whatever the version is
abbrev some_version : ℕ → Text
some_version ver = codes "1.2"

board_lines-Shown_example :
    let found = present some_codes example_link example_device 0 in
    let boards = page_boards some_codes example_link example_device found in
    (t : WebCtrlComm) × (board_line1_ssi_handler some_version some_codes example_link start
      ≡ done (line_of some_codes example_link example_device some_version boards 0 t, t))
    × ((k : ℕ)
        → board_line_ssi_handler some_version (suc k) t
          ≡ done (line_of some_codes example_link example_device some_version boards k t, t))
    × HasVersions some_codes example_link example_device found t.bulb_ver
board_lines-Shown_example =
    board_lines-Shown some_codes example_link example_device some_version start (λ ver. omega arith)
      refl refl
