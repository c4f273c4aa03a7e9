-- ===== src/Site/Cgi.antt =====
-- The table of the form handlers (ppcURLs of USER/module_webserver/httpd_cgi.c).
use Prim.Native.String.{String}
use arm_ucos_proxy.Base.{List, [], ◌∷◌, ◌++◌, Option, none, some, if◌then◌else◌}
use arm_ucos_proxy.Base.Outcome.{Outcome, done, and_then, Action}
use arm_ucos_proxy.Tftp.Packet.{codes}
use arm_ucos_proxy.Ports.Text.{Text, text_equal}
use arm_ucos_proxy.Ports.State.{AjaxPage}
use arm_ucos_proxy.Ports.Opt.{opt_cgi_interface}
use arm_ucos_proxy.Ports.E1.{e1_cgi_interface}
use arm_ucos_proxy.Ports.Eth.{eth_cgi_interface}
use arm_ucos_proxy.Pages.Remote.{RemotePage, cent_rmt_cgi_interface}
use arm_ucos_proxy.Admin.Account.{account_cgi_interface}
use arm_ucos_proxy.Admin.Network.{NetAjax, net_cgi_interface}
use arm_ucos_proxy.Admin.Reboot.{reboot_cgi_interface}
use arm_ucos_proxy.Admin.Update.{update_cgi_interface}
use arm_ucos_proxy.Site.State.{Site, Outside, on_pages, on_web_control}

-- The page that a handler names.
pub data CgiPage : Type 0 where
  of_ports : AjaxPage → CgiPage
  of_remote : RemotePage → CgiPage
  of_net : NetAjax → CgiPage
  login_ajax : CgiPage
  panel_ajax : CgiPage
  reboot_ajax : CgiPage
  account_ajax : CgiPage
  update_ajax : CgiPage

-- CGI_ACTION
abbrev pub cgi_action : String → Text
cgi_action act = codes "/" ++ codes act ++ codes ".cgi"

abbrev pub CgiHandler : Type 0 → Type 0
CgiHandler S = List (Text × Text) → Action (Site S) CgiPage

module _ {S : Type 0} (o : Outside S) where
  open o use {cmds, link, store, inet}

  unfoldable pub login_cgi_interface : CgiHandler S
  login_cgi_interface params s = done (login_ajax, s)

  unfoldable pub panel_cgi_interface : CgiHandler S
  panel_cgi_interface params s = done (panel_ajax, s)

  unfoldable pub cent_rmt_form : CgiHandler S
  cent_rmt_form params s =
      and_then (on_web_control (cent_rmt_cgi_interface params) s) λ r. done (of_remote r.0, r.1)

  unfoldable pub reboot_form : CgiHandler S
  reboot_form params s =
      done (reboot_ajax, record s { reboot = reboot_cgi_interface params s.reboot })

  unfoldable pub account_form : CgiHandler S
  account_form params s =
      and_then (account_cgi_interface store params s.account)
        λ t. done (account_ajax, record s { account = t })

  unfoldable pub net_form : CgiHandler S
  net_form params s =
      and_then (net_cgi_interface inet params s.net) λ r. done (of_net r.0, record s { net = r.1 })

  unfoldable pub update_form : CgiHandler S
  update_form params s =
      and_then (update_cgi_interface params s.update)
        λ t. done (update_ajax, record s { update = t })

  unfoldable pub ports_form : (List (Text × Text) → Action (Site S) AjaxPage) → CgiHandler S
  ports_form form params s = and_then (form params s) λ r. done (of_ports r.0, r.1)

  unfoldable pub pp_urls : List (Text × CgiHandler S)
  pp_urls =
      (cgi_action "login", login_cgi_interface)
      ∷ (cgi_action "panel", panel_cgi_interface)
      ∷ (cgi_action "cent_rmt", cent_rmt_form)
      ∷ (cgi_action "reboot", reboot_form)
      ∷ (cgi_action "account", account_form)
      ∷ (cgi_action "net", net_form)
      ∷ (cgi_action "update", update_form)
      ∷ (cgi_action "opt", ports_form λ params. on_pages (opt_cgi_interface cmds link params))
      ∷ (cgi_action "eth", ports_form λ params. on_pages (eth_cgi_interface cmds link params))
      ∷ (cgi_action "e1", ports_form λ params. on_pages (e1_cgi_interface cmds link params))
      ∷ []

  -- The server's choice of a handler: the first with the name, if there is one.
  unfoldable pub request :
      List (Text × CgiHandler S)
      → Text
      → List (Text × Text)
      → Site S
      → Option (Outcome (CgiPage × Site S))
  request [] name params s = none
  request ((url, handler) ∷ urls) name params s =
      if text_equal name url then some (handler params s) else request urls name params s
