-- ===== src/Ports/EthReads.antt =====
-- The ethernet page against a device on the link: it shows what the boards answer.
use arm_ucos_proxy.Base.{
  ℕ, ◌<◌, ◌≡◌, refl, ap, ◌∙◌, Bool, true, false, List, Option, none, some, length, get_or, arith,
}
use arm_ucos_proxy.Base.Outcome.{done, ◌>>=◌}
use arm_ucos_proxy.Comm.State.{WebDybFrame, WebBoardsExist, WebCtrlComm, Codes, Exchange, zero_eth}
use arm_ucos_proxy.Comm.Page.{page_status}
use arm_ucos_proxy.Comm.Tables.{web_read_eth}
use arm_ucos_proxy.Comm.Responds.{Device, present}
use arm_ucos_proxy.Comm.EthTable.{eth_row, web_read_eth_lem}
use arm_ucos_proxy.Ports.Text.{Text, fail_str}
use arm_ucos_proxy.Ports.State.{PortPages, on_control}
use arm_ucos_proxy.Ports.Eth.{eth_read_data_ssi_handler}
use arm_ucos_proxy.Ports.EthText.{read_words, before_mark, behind_mark, eth_text-read_words}
use arm_ucos_proxy.Ports.PageReads.{AnswersBytes}
use arm_ucos_proxy.Ports.EthRows.{device_eth_ports, rows-device_eth_ports}

module _ (codes : Codes) (link : List WebDybFrame → Exchange) (d : Device codes link) where
  -- What the page shows: that the device does not answer, or each port of its boards.
  abbrev pub EthPageShows : Option WebBoardsExist → Text → Type 0
  EthPageShows none text = text ≡ fail_str
  EthPageShows (some be) text =
      (read_words (before_mark text) ≡ device_eth_ports codes link d true be 0 9)
      × (read_words (behind_mark text) ≡ device_eth_ports codes link d false be 0 9)

  -- The page of the ethernet ports returns against any device on the link that answers bytes, with
  -- a free mutex and nine rows. Its text says that the request failed if the device does not answer
  -- for its number and its boards; else it determines, board by board, the two gigabit ports (before
  -- the mark) and the six fast ports (behind it) of each board with such ports that answers for
  -- them, with the words of its answer, and no other port.
  pub eth_read_data_ssi_handler-PageShows :
      (s : PortPages)
      → AnswersBytes codes link d
      → s.web_control.ll_access_mtx ≡ 1
      → length s.web_control.eth ≡ 9
      → (text : Text) × (s' : PortPages) × (eth_read_data_ssi_handler codes link s
          ≡ done (text, s'))
        × EthPageShows (present codes link d s.web_control.cr_remote_chosen) text
  unfolding eth_read_data_ssi_handler
  eth_read_data_ssi_handler-PageShows s bytes one size =
      let (c, e, one', size', rows, others) =
        web_read_eth_lem codes link d s.web_control one size in
      shows (present codes link d s.web_control.cr_remote_chosen) c e size' rows
    where
      shows :
          (found : Option WebBoardsExist) (c : WebCtrlComm)
          → web_read_eth codes link s.web_control ≡ done (page_status found, c)
          → length c.eth ≡ 9
          → ((j : ℕ)
              → j < 9
              → get_or c.eth j zero_eth ≡ (elim found [
                | none ↦ zero_eth
                | some be ↦ eth_row codes link d be j (get_or s.web_control.eth j zero_eth)
              ]))
          → (text : Text) × (s' : PortPages) × (eth_read_data_ssi_handler codes link s
              ≡ done (text, s'))
            × EthPageShows found text
      shows none c e size' rows = (
        fail_str,
        record s { web_control = c },
        rw (eth_read_data_ssi_handler, ◌>>=◌, on_control, e) refl,
        refl,
      )
      shows (some be) c e size' rows =
          let read = λ (ge : Bool).
            rows-device_eth_ports codes link d ge be c.eth
              (λ k. get_or s.web_control.eth k zero_eth) 0 bytes
              (λ k m.
                rows k (omega (arith, size'))
                ∙ ap (λ j. eth_row codes link d be j (get_or s.web_control.eth k zero_eth))
                    (omega arith)) in
          let (text, e', ge, fe) =
            eth_text-read_words c.eth (omega (arith, size')) (read true).0 (read false).0 in
          (
            text,
            record s { web_control = c },
            rw (eth_read_data_ssi_handler, ◌>>=◌, on_control, e, e') refl,
            (
              ge ∙ (read true).1 ∙ ap (λ n. device_eth_ports codes link d true be 0 n) size',
              fe ∙ (read false).1 ∙ ap (λ n. device_eth_ports codes link d false be 0 n) size',
            ),
          )
