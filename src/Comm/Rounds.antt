-- ===== src/Comm/Rounds.antt =====
-- The two shapes of the loops' bodies.
use arm_ucos_proxy.Base.{ℕ, ◌≡◌, true, false, List}
use arm_ucos_proxy.Base.Outcome.{done, Status, ok, err, Action, ◌>>=◌}
use arm_ucos_proxy.Comm.State.{WebCtrlComm}
use arm_ucos_proxy.Comm.Read.{board_contains}
use arm_ucos_proxy.Comm.Tables.{if_board, mark}

pub if_board-out :
    (tab : List ℕ) (i : ℕ) (read : Action WebCtrlComm (Unit {0})) (skip : WebCtrlComm → WebCtrlComm)
    (s : WebCtrlComm)
    → board_contains tab i s.boards_exist ≡ false
    → if_board tab i read skip s ≡ done (tt, skip s)
if_board-out tab i read skip s h = rw h

pub if_board-in :
    (tab : List ℕ) (i : ℕ) (read : Action WebCtrlComm (Unit {0})) (skip : WebCtrlComm → WebCtrlComm)
    (s : WebCtrlComm)
    → board_contains tab i s.boards_exist ≡ true
    → if_board tab i read skip s ≡ read s
if_board-in tab i read skip s h = rw h

pub mark-ok :
    (read : Action WebCtrlComm Status) (good bad : WebCtrlComm → WebCtrlComm) {s t : WebCtrlComm}
    → read s ≡ done (ok, t)
    → mark read good bad s ≡ done (tt, good t)
mark-ok read good bad h = rw (h, ◌>>=◌)

pub mark-err :
    (read : Action WebCtrlComm Status) (good bad : WebCtrlComm → WebCtrlComm) {s t : WebCtrlComm}
    → read s ≡ done (err, t)
    → mark read good bad s ≡ done (tt, bad t)
mark-err read good bad h = rw (h, ◌>>=◌)
