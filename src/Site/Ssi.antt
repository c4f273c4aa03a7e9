-- ===== src/Site/Ssi.antt =====
-- The table of the tags (httpd_ssi_objs of USER/module_webserver/httpd_ssi.c).
use arm_ucos_proxy.Base.{ℕ, suc, List, [], ◌∷◌, Option, none, some, get_elem?, if◌then◌else◌}
use arm_ucos_proxy.Base.Outcome.{Outcome, done, fault, and_then, Action}
use arm_ucos_proxy.Tftp.Packet.{codes}
use arm_ucos_proxy.Ports.Text.{Text, text_equal}
use arm_ucos_proxy.Ports.Opt.{opt_read_data_ssi_handler, opt_config_status_ssi_handler}
use arm_ucos_proxy.Ports.E1.{e1_read_data_ssi_handler, e1_config_status_ssi_handler}
use arm_ucos_proxy.Ports.Eth.{eth_read_data_ssi_handler, eth_config_status_ssi_handler}
use arm_ucos_proxy.Pages.Remote.{panel_ssi_handler, cent_rmt_read_ssi_handler}
use arm_ucos_proxy.Boards.Table.{board_line1_ssi_handler, board_line_ssi_handler}
use arm_ucos_proxy.Admin.Account.{account_status_ssi_handler, login_usrpasswd_ssi_handler}
use arm_ucos_proxy.Admin.Network.{net_read_data_ssi_handler, net_config_status_ssi_handler}
use arm_ucos_proxy.Admin.Update.{update_status_ssi_handler}
use arm_ucos_proxy.Site.State.{Site, Outside, on_pages, on_web_control}

-- A handler gets what the buffer for its text held before.
abbrev pub SsiHandler : Type 0 → Type 0
SsiHandler S = Text → Action (Site S) Text

module _ {S : Type 0} (o : Outside S) where
  open o use {cmds, link, version_ntoa, store, net_texts, version_texts}

  -- A handler that reads the state only.
  abbrev pub reads : (Site S → Outcome Text) → SsiHandler S
  reads show old s = and_then (show s) λ text. done (text, s)

  abbrev pub board_line : ℕ → SsiHandler S
  board_line lineno old = on_web_control (board_line_ssi_handler version_ntoa lineno)

  unfoldable pub httpd_ssi_objs : List (Text × SsiHandler S)
  httpd_ssi_objs =
      (codes "login_usrpswd", reads λ s. done (login_usrpasswd_ssi_handler store s.account.kept))
      ∷ (codes "panel_bulb", λ old. on_web_control (panel_ssi_handler cmds link))
      ∷ (codes "cr_read", reads λ s. done (cent_rmt_read_ssi_handler s.pages.web_control))
      ∷ (
        codes "account_status",
        reads λ s. done (account_status_ssi_handler s.account.account_status),
      )
      ∷ (
        codes "net_read_data",
        reads λ s.
            net_read_data_ssi_handler (net_texts s.net.config) version_texts
              s.pages.web_control.dev_id,
      )
      ∷ (
        codes "net_config_status",
        reads λ s. done (net_config_status_ssi_handler s.net.net_config_status),
      )
      ∷ (codes "update_status", reads λ s. update_status_ssi_handler s.update.client)
      ∷ (
        codes "board_line1",
        λ old. on_web_control (board_line1_ssi_handler version_ntoa cmds link),
      )
      ∷ (codes "board_line2", board_line 2)
      ∷ (codes "board_line3", board_line 3)
      ∷ (codes "board_line4", board_line 4)
      ∷ (codes "board_line5", board_line 5)
      ∷ (codes "board_line6", board_line 6)
      ∷ (codes "board_line7", board_line 7)
      ∷ (codes "board_line8", board_line 8)
      ∷ (codes "board_line9", board_line 8)
      ∷ (codes "board_line10", board_line 10)
      ∷ (codes "opt_read_data", λ old. on_pages (opt_read_data_ssi_handler cmds link old))
      ∷ (codes "opt_config_status", reads λ s. done (opt_config_status_ssi_handler s.pages))
      ∷ (codes "eth_read_data", λ old. on_pages (eth_read_data_ssi_handler cmds link))
      ∷ (codes "eth_config_status", reads λ s. done (eth_config_status_ssi_handler s.pages))
      ∷ (codes "e1_read_data", λ old. on_pages (e1_read_data_ssi_handler cmds link old))
      ∷ (codes "e1_config_status", reads λ s. done (e1_config_status_ssi_handler s.pages))
      ∷ []

  -- The handler of the tag with the number.
  unfoldable pub ssi_handler : ℕ → SsiHandler S
  ssi_handler index old s = elim (get_elem? httpd_ssi_objs index) [
    | none ↦ fault
    | some (tag, handler) ↦ handler old s
  ]

  -- The server's number of a tag: the first with the text.
  unfoldable pub tag_index : Text → List (Text × SsiHandler S) → Option ℕ
  tag_index tag [] = none
  tag_index tag ((t, handler) ∷ objs) =
      let later = tag_index tag objs in
      if text_equal tag t then some 0 else elim later [ none ↦ none | some i ↦ some (suc i) ]
