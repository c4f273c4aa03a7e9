-- ===== src/Site/Shows.antt =====
-- The tags of the port pages and of the panel against a device, whatever was asked of the site before.
use arm_ucos_proxy.Base.{ℕ, ◌≤◌, ◌≡◌, refl, ap, ◌∙◌, length}
use arm_ucos_proxy.Base.Outcome.{done, and_then, Action, ◌>>=◌}
use arm_ucos_proxy.Tftp.Packet.{codes}
use arm_ucos_proxy.Comm.State.{WebCtrlComm}
use arm_ucos_proxy.Comm.Responds.{Device, present}
use arm_ucos_proxy.Ports.Text.{Text, text_equal}
use arm_ucos_proxy.Ports.State.{PortPages, on_control}
use arm_ucos_proxy.Ports.PageReads.{AnswersBytes, PageShows, opt_read_data_ssi_handler-PageShows}
use arm_ucos_proxy.Ports.E1Reads.{E1PageShows, e1_read_data_ssi_handler-PageShows}
use arm_ucos_proxy.Ports.EthReads.{EthPageShows, eth_read_data_ssi_handler-PageShows}
use arm_ucos_proxy.Ports.Opt.{opt_read_data_ssi_handler}
use arm_ucos_proxy.Ports.E1.{e1_read_data_ssi_handler}
use arm_ucos_proxy.Ports.Eth.{eth_read_data_ssi_handler}
use arm_ucos_proxy.Pages.Remote.{panel_ssi_handler}
use arm_ucos_proxy.Pages.Panel.{lamps_answer, PanelShows, panel_ssi_handler-PanelShows}
use arm_ucos_proxy.Site.State.{Site, Outside, on_pages, on_web_control}
use arm_ucos_proxy.Site.Ssi.{httpd_ssi_objs, ssi_handler, tag_index}
use arm_ucos_proxy.Site.Tags.{show_tag}
use arm_ucos_proxy.Site.Reach.{Reach, IsStart, Reach-IsCalm}

module _ {S : Type 0} (o : Outside S) (d : Device o.cmds o.link) where
  open o use {cmds, link}

  -- A tag whose text shows what a predicate says of the boards that are present.
  abbrev pub TagShows : Text → Text → Site S → (Text → Type 0) → Type 0
  TagShows name old s shows =
      (text : Text) × (u : Site S) × (show_tag o name old s ≡ done (text, u)) × shows text

  page-TagShows :
      (name old : Text) (act : Action PortPages Text) (shows : Text → Type 0) (s : Site S)
      → show_tag o name old s ≡ on_pages act s
      → (text : Text) × (p : PortPages) × (act s.pages ≡ done (text, p)) × shows text
      → TagShows name old s shows
  page-TagShows name old act shows s same (text, p, e, shown) = (
    text,
    record s { pages = p },
    same ∙ ap (λ r. and_then r λ r. done (r.0, record s { pages = r.1 })) e,
    shown,
  )

  control-TagShows :
      (name old : Text) (act : Action WebCtrlComm Text) (shows : Text → Type 0) (s : Site S)
      → show_tag o name old s ≡ on_web_control act s
      → (text : Text) × (c : WebCtrlComm) × (act s.pages.web_control ≡ done (text, c)) × shows text
      → TagShows name old s shows
  control-TagShows name old act shows s same (text, c, e, shown) =
      page-TagShows name old (on_control act) shows s same
        (text, record (s.pages) { web_control = c }, rw (◌>>=◌, on_control, e) refl, shown)

  -- After any forms, tags and turns since start up, against a device on the link that answers
  -- bytes, and answers the same whatever was sent to it before (so none that a form has configured):
  -- the tags of the optical, the ethernet and the E1 ports show that the device does not answer, or
  -- else the ports of its boards, as the pages do by themselves, and the tag of the panel shows the
  -- lamps of its first board. (version_ntoa keeps within its eight characters.)
  pub Reach-shows_device :
      {s t : Site S}
      → ((ver : ℕ) → length (o.version_ntoa ver) ≤ 7)
      → AnswersBytes cmds link d
      → IsStart o s
      → Reach o s t
      → (old : Text)
      → let found = present cmds link d t.pages.web_control.cr_remote_chosen in
        TagShows (codes "opt_read_data") old t (PageShows cmds link d old found)
        × TagShows (codes "eth_read_data") old t (EthPageShows cmds link d found)
        × TagShows (codes "e1_read_data") old t (E1PageShows cmds link d old found)
        × TagShows
            (codes "panel_bulb")
            old
            t
            (PanelShows (lamps_answer cmds link d t.pages.web_control.cr_remote_chosen))
  unfolding tag_index httpd_ssi_objs ssi_handler text_equal
  Reach-shows_device {s} {t} short bytes start r old =
      let calm = Reach-IsCalm o short start r in
      (
        page-TagShows (codes "opt_read_data") old (opt_read_data_ssi_handler cmds link old) _ t refl
            (opt_read_data_ssi_handler-PageShows cmds link d old t.pages bytes calm.mutex
              calm.opt.size),
        page-TagShows (codes "eth_read_data") old (eth_read_data_ssi_handler cmds link) _ t refl (
            eth_read_data_ssi_handler-PageShows cmds link d t.pages bytes calm.mutex calm.eth.size),
        page-TagShows (codes "e1_read_data") old (e1_read_data_ssi_handler cmds link old) _ t refl (
            e1_read_data_ssi_handler-PageShows cmds link d old t.pages bytes calm.mutex
              calm.e1.size),
        control-TagShows (codes "panel_bulb") old (panel_ssi_handler cmds link) _ t refl (
            let (text, c, e, one, shown) =
              panel_ssi_handler-PanelShows cmds link d t.pages.web_control calm.mutex
                calm.bulb_ver in
            (text, c, e, shown)),
      )
