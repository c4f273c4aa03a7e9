-- ===== src/Site/Examples.antt =====
-- The theorems about the tables of handlers on a device with nine boards.
use arm_ucos_proxy.Base.{◌≡◌, true, refl, [], ◌∷◌, length, replicate, arith}
use arm_ucos_proxy.Base.Outcome.{done, ok}
use arm_ucos_proxy.Tftp.Packet.{codes}
use arm_ucos_proxy.Tftp.Sample.{idle}
use arm_ucos_proxy.Comm.State.{WebCtrlComm, zero_bulb_ver}
use arm_ucos_proxy.Comm.Sample.{
  some_codes, example_link, start, example_device, board_answer-bytes, example_link-IsSafe,
}
use arm_ucos_proxy.Ports.Text.{text_equal, find_cgi_parameter}
use arm_ucos_proxy.Boards.Table.{fill_row}
use arm_ucos_proxy.Boards.Lines.{set_boards, board_texts}
use arm_ucos_proxy.Admin.Account.{WebAccount, not_changed}
use arm_ucos_proxy.Site.State.{Site, Outside}
use arm_ucos_proxy.Site.Cgi.{cgi_action, request, pp_urls}
use arm_ucos_proxy.Comm.State.{ctrl_web_control_comm_init}
use arm_ucos_proxy.Comm.Responds.{present}
use arm_ucos_proxy.Base.Outcome.{blocked}
use arm_ucos_proxy.Base.{◌≢◌, some}
use arm_ucos_proxy.Pages.Remote.{
  cent_rmt_param, cent_rmt_read_ssi_handler, cgi_remote_string, cent_rmt_cgi_interface, cr_write,
}
use arm_ucos_proxy.Ports.Text.{Text, FitsTag, mystrncmp}
use arm_ucos_proxy.Pages.Panel.{lamps_answer, PanelShows}
use arm_ucos_proxy.Ports.PageReads.{PageShows}
use arm_ucos_proxy.Ports.E1Reads.{E1PageShows}
use arm_ucos_proxy.Ports.EthReads.{EthPageShows}
use arm_ucos_proxy.Site.Cgi.{cent_rmt_form, of_remote}
use arm_ucos_proxy.Site.Tidy.{IsCalm}
use arm_ucos_proxy.Site.CalmTags.{is_partial, is_outer}
use arm_ucos_proxy.Site.Reach.{
  IsStart, Reach, here, next, form, Reach-IsCalm, Reach-never_waits, Reach-shows, Reach-FitsTag,
}
use arm_ucos_proxy.Boards.Shown.{page_boards, line_of, HasVersions}
use arm_ucos_proxy.Site.Boards.{LinesShow, line_tags, Reach-shows_boards}
use arm_ucos_proxy.Site.Shows.{TagShows, Reach-shows_device}
use arm_ucos_proxy.Site.Ssi.{httpd_ssi_objs, ssi_handler, tag_index}
use arm_ucos_proxy.Site.Tags.{show_tag, show_tag-board_line9}

abbrev example_outside : Outside WebAccount
example_outside = record {
  cmds = some_codes;
  link = example_link;
  version_ntoa = λ ver. codes "1.2";
  store = record {
    web_account_read = λ s. s;
    web_account_write = λ a s. a;
    read_written = λ a s. refl;
  };
  inet = record {
    inet_addr = λ text. length text;
    ntohl = λ a. a;
    ip_msk_gw_validation = λ ip mask gw. true;
  };
  net_texts = λ config. replicate 7 (codes "1");
  version_texts = replicate 2 (codes "2");
}

abbrev nine_boards : WebCtrlComm
nine_boards = record start { bulb_ver = replicate 9 (record zero_bulb_ver { is_set = 1 }) }

abbrev site : Site WebAccount
site = record {
  pages = record {
    web_control = nine_boards;
    opt_config_state = ok;
    e1_config_state = ok;
    eth_config_state = ok;
  };
  account = record {
    kept = record { username = codes "admin"; passwd = codes "1234" };
    account_status = not_changed;
  };
  net = record {
    config = record { host_ip = 1; netmask = 2; gateway = 3; jump_ip = 4; rest = [] };
    calls = [];
    net_config_status = ok;
  };
  reboot = record { reboot_set = 0; resets = 0 };
  update = record { client = idle; start_sem = 0 };
}

show_tag-board_line9_example :
    show_tag example_outside (codes "board_line9") [] site
    ≡ done (fill_row (board_texts (λ ver. codes "1.2") 7 nine_boards), site)
unfolding set_boards
show_tag-board_line9_example =
    show_tag-board_line9 example_outside [] site 7 (λ ver. omega arith) refl

-- The site after start up, and after a form that chooses the remote end.
abbrev fresh : Site WebAccount
fresh = record site { pages = record (site.pages) { web_control = start } }

abbrev remote : Site WebAccount
remote = record site {
  pages = record (site.pages) { web_control = record start { cr_remote_chosen = 1 } };
}

fresh-IsStart : IsStart example_outside fresh
unfolding ctrl_web_control_comm_init
fresh-IsStart = refl

-- "cent_rmt=%E8%BF%9C" and another parameter.
chosen : Reach example_outside fresh remote
unfolding text_equal request pp_urls cent_rmt_form cent_rmt_cgi_interface find_cgi_parameter
    mystrncmp
chosen = next here (
    form (cgi_action "cent_rmt") ((cent_rmt_param, cgi_remote_string) ∷ (codes "submit", []) ∷ [])
      (of_remote cr_write) refl)

Reach-IsCalm_example : IsCalm remote
Reach-IsCalm_example = Reach-IsCalm example_outside (λ ver. omega arith) fresh-IsStart chosen

Reach-never_waits_example :
    (request example_outside (pp_urls example_outside) (cgi_action "opt") [] remote ≢ some blocked)
    × (show_tag example_outside (codes "e1_read_data") [] remote ≢ blocked)
Reach-never_waits_example =
    Reach-never_waits example_outside (λ ver. omega arith) fresh-IsStart chosen (cgi_action "opt")
      [] (codes "e1_read_data") [] (omega arith)

Reach-shows_example :
    (text : Text) × (u : Site WebAccount) × (show_tag example_outside (codes "panel_bulb") [] remote
      ≡ done (text, u))
    × IsCalm u
unfolding is_partial text_equal
Reach-shows_example =
    Reach-shows example_outside (λ ver. omega arith) example_link-IsSafe fresh-IsStart chosen
      (codes "panel_bulb") [] (omega arith) refl

-- The text of the end that was chosen.
Reach-FitsTag_example : FitsTag (codes "remote")
unfolding is_outer text_equal ssi_handler tag_index httpd_ssi_objs cent_rmt_read_ssi_handler
Reach-FitsTag_example =
    Reach-FitsTag example_outside (λ ver. omega arith) fresh-IsStart chosen (codes "cr_read") []
      (codes "remote") (omega arith) refl refl

Reach-shows_device_example :
    let found = present some_codes example_link example_device 1 in
    TagShows example_outside example_device
      (codes "opt_read_data")
      []
      remote
      (PageShows some_codes example_link example_device [] found)
    × TagShows example_outside example_device
        (codes "eth_read_data")
        []
        remote
        (EthPageShows some_codes example_link example_device found)
    × TagShows example_outside example_device
        (codes "e1_read_data")
        []
        remote
        (E1PageShows some_codes example_link example_device [] found)
    × TagShows example_outside example_device
        (codes "panel_bulb")
        []
        remote
        (PanelShows (lamps_answer some_codes example_link example_device 1))
unfolding example_device
Reach-shows_device_example =
    Reach-shows_device example_outside example_device (λ ver. omega arith) board_answer-bytes
      fresh-IsStart chosen []

Reach-shows_boards_example :
    let found = present some_codes example_link example_device 1 in
    let boards = page_boards some_codes example_link example_device found in
    (u : Site WebAccount) × (show_tag example_outside (codes "board_line1") [] remote
      ≡ done (
        line_of some_codes example_link example_device
            (λ ver. codes "1.2")
            boards
            0
            u.pages.web_control,
        u,
      ))
    × LinesShow example_outside example_device boards 1 line_tags u
    × HasVersions some_codes example_link example_device found u.pages.web_control.bulb_ver
Reach-shows_boards_example =
    Reach-shows_boards example_outside example_device (λ ver. omega arith) fresh-IsStart chosen []
