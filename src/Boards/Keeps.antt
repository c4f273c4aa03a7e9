-- ===== src/Boards/Keeps.antt =====
-- The lines of the boards' page and the panel leave the boards' tables tidy and never wait for ever.
use arm_ucos_proxy.Base.{ℕ, suc, ◌≤◌, length, List, get_or, arith}
use arm_ucos_proxy.Base.Outcome.{
  Returns, Returns-and_then, Returns-bind, Action, done, Status, ok, err, pure,
}
use arm_ucos_proxy.Comm.State.{WebDybFrame, WebCtrlComm, Codes, Exchange, zero_bulb_ver}
use arm_ucos_proxy.Comm.Tables.{web_read_boards_version, web_read_panel}
use arm_ucos_proxy.Comm.Keeps.{Supplies}
use arm_ucos_proxy.Comm.Whole.{web_read_boards_version-Keeps, web_read_panel-Keeps}
use arm_ucos_proxy.Comm.Tidy.{IsTidy}
use arm_ucos_proxy.Ports.Text.{Text, FitsTag, fail_str}
use arm_ucos_proxy.Pages.Remote.{lamps, panel_ssi_handler}
use arm_ucos_proxy.Boards.Table.{board_line_ssi_handler, board_line1_ssi_handler}
use arm_ucos_proxy.Boards.Fits.{line_text-FitsTag}
use arm_ucos_proxy.Boards.Lines.{board_common_line_ssi_handler_lem}

-- An action that gives a text that the buffer holds.
abbrev pub Gives : Type 0 → Action WebCtrlComm Text → Type 0
Gives may_fault act =
    (s : WebCtrlComm) → IsTidy 1 s → Returns may_fault (λ r. IsTidy 1 r.1 × FitsTag r.0) (act s)

module _ (may_fault : Type 0) (version_ntoa : ℕ → Text)
    (short : (ver : ℕ) → length (version_ntoa ver) ≤ 7) where
  pub board_line-Gives : (k : ℕ) → Gives may_fault (board_line_ssi_handler version_ntoa (suc k))
  unfolding board_line_ssi_handler
  board_line-Gives k s tidy =
      rw (board_line_ssi_handler, board_common_line_ssi_handler_lem version_ntoa k s short)
        (tidy, line_text-FitsTag version_ntoa k s short)

  module _ (codes : Codes) (link : List WebDybFrame → Exchange)
      (delivers : Supplies may_fault link) where
    pub board_line1-Gives : Gives may_fault (board_line1_ssi_handler version_ntoa codes link)
    unfolding board_line1_ssi_handler
    board_line1-Gives s tidy =
        Returns-and_then may_fault (λ r. IsTidy 1 r.1) (λ r. IsTidy 1 r.1 × FitsTag r.0)
          (web_read_boards_version codes link s) _
          (web_read_boards_version-Keeps may_fault codes link delivers s tidy)
          (λ r tidy'. board_line-Gives 0 r.1 tidy')

module _ (may_fault : Type 0) (codes : Codes) (link : List WebDybFrame → Exchange)
    (delivers : Supplies may_fault link) where
  pub panel-Gives : Gives may_fault (panel_ssi_handler codes link)
  unfolding panel_ssi_handler lamps
  panel-Gives s tidy =
      Returns-bind may_fault (λ r. IsTidy 1 r.1) (λ r. IsTidy 1 r.1 × FitsTag r.0)
        (web_read_panel codes link s) _ (web_read_panel-Keeps may_fault codes link delivers s tidy)
        show
    where
      show :
          (r : Status)
          → Gives may_fault (elim r [
            | err ↦ pure fail_str
            | ok ↦ λ s. done (lamps 16 0 (get_or s.bulb_ver 0 zero_bulb_ver).frame.bulb, s)
          ])
      show err s tidy = (tidy, omega arith)
      show ok s tidy = (tidy, omega arith)
