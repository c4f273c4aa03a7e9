-- ===== src/Site/Tidy.antt =====
-- Every form leaves the boards' tables tidy and never waits for ever.
use arm_ucos_proxy.Base.{
  ℕ, Bool-cases, Option-cases, inl, inr, List, [], ◌∷◌, Option, none, some, length, ltb,
}
use arm_ucos_proxy.Base.Outcome.{Outcome, and_then, Action, Returns, Returns-and_then, NeverWaits}
use arm_ucos_proxy.Comm.State.{WebCtrlComm}
use arm_ucos_proxy.Comm.Tidy.{IsTidy}
use arm_ucos_proxy.Comm.Keeps.{Supplies, Keeps}
use arm_ucos_proxy.Ports.Text.{Text, text_equal, find_cgi_parameter}
use arm_ucos_proxy.Ports.State.{PortPages, AjaxPage, on_control}
use arm_ucos_proxy.Ports.Keeps.{PagesKeep, on_control-PagesKeep}
use arm_ucos_proxy.Ports.Answers.{
  opt_cgi_interface-PagesKeep, e1_cgi_interface-PagesKeep, eth_cgi_interface-PagesKeep,
}
use arm_ucos_proxy.Pages.Remote.{cent_rmt_cgi_interface, cent_rmt_param}
use arm_ucos_proxy.Admin.Waits.{
  account_cgi_interface-NeverWaits, net_cgi_interface-NeverWaits, update_cgi_interface-NeverWaits,
}
use arm_ucos_proxy.Site.State.{Site, Outside, on_pages, on_web_control}
use arm_ucos_proxy.Site.Cgi.{
  CgiHandler, cent_rmt_form, reboot_form, account_form, net_form, update_form, ports_form, pp_urls,
  login_cgi_interface, panel_cgi_interface, request, CgiPage,
}

cent_rmt-Keeps :
    (params : List (Text × Text)) → Keeps (Unit {0}) 1 1 (cent_rmt_cgi_interface params)
unfolding cent_rmt_cgi_interface
cent_rmt-Keeps params s tidy = elim (Bool-cases (ltb (length params) 2)) [
  | inl e ↦ rw (cent_rmt_cgi_interface, e) tidy
  | inr few ↦ elim (Option-cases (find_cgi_parameter cent_rmt_param params)) [
    | inl e ↦ rw (cent_rmt_cgi_interface, few, e) tt
    | inr (value, e) ↦ rw (cent_rmt_cgi_interface, few, e) (chosen tidy _)
  ]
]
  where
    chosen : {s : WebCtrlComm} → IsTidy 1 s → (n : ℕ) → IsTidy 1 (record s { cr_remote_chosen = n })
    chosen t n = record {
      mutex = t.mutex;
      body = t.body;
      bulb_ver = t.bulb_ver;
      opt = t.opt;
      eth = t.eth;
      e1 = t.e1;
    }

module _ {S : Type 0} where
  -- The boards' tables of the site are tidy.
  abbrev pub IsCalm : Site S → Type 0
  IsCalm s = IsTidy 1 s.pages.web_control

  abbrev pub SiteKeeps : {A : Type 0} → Type 0 → Action (Site S) A → Type 0
  SiteKeeps may_fault act = (s : Site S) → IsCalm s → Returns may_fault (λ r. IsCalm r.1) (act s)

  on_pages-SiteKeeps :
      {A : Type 0} (may_fault : Type 0) (act : Action PortPages A)
      → PagesKeep may_fault act
      → SiteKeeps may_fault (on_pages act)
  on_pages-SiteKeeps may_fault act keeps s calm =
      Returns-and_then may_fault (λ r. IsTidy 1 r.1.web_control) (λ r. IsCalm r.1) (act s.pages) _
        (keeps s.pages calm) (λ r tidy. tidy)

  on_web_control-SiteKeeps :
      {A : Type 0} (may_fault : Type 0) (act : Action WebCtrlComm A)
      → Keeps may_fault 1 1 act
      → SiteKeeps may_fault (on_web_control act)
  on_web_control-SiteKeeps may_fault act keeps =
      on_pages-SiteKeeps may_fault (on_control act) (on_control-PagesKeep may_fault act keeps)

  -- A call on another part of the state.
  apart-SiteKeeps :
      {T A : Type 0} (o : Outcome T) (f : T → Outcome (A × Site S))
      → NeverWaits o
      → ((t : T) → Returns (Unit {0}) (λ r. IsCalm r.1) (f t))
      → Returns (Unit {0}) (λ r. IsCalm r.1) (and_then o f)
  apart-SiteKeeps o f h h' =
      Returns-and_then (Unit {0}) (λ t. Unit {0}) (λ r. IsCalm r.1) o f h (λ t u. h' t)

  ports_form-SiteKeeps :
      (o : Outside S) (form : List (Text × Text) → Action (Site S) AjaxPage)
      (params : List (Text × Text))
      → SiteKeeps (Unit {0}) (form params)
      → SiteKeeps (Unit {0}) (ports_form o form params)
  unfolding ports_form
  ports_form-SiteKeeps o form params keeps s calm =
      Returns-and_then (Unit {0}) (λ r. IsCalm r.1) (λ r. IsCalm r.1) (form params s) _
        (keeps s calm) (λ r calm'. calm')

  -- Handlers that keep the site calm.
  unfoldable AllCalm : List (Text × CgiHandler S) → Type 0
  AllCalm [] = Unit
  AllCalm ((url, handler) ∷ urls) =
      ((params : List (Text × Text)) → SiteKeeps (Unit {0}) (handler params)) × AllCalm urls

  module _ (o : Outside S) (delivers : Supplies (Unit {0}) o.link) where
    open o use {cmds, link, store, inet}

    pp_urls-AllCalm : AllCalm (pp_urls o)
    unfolding AllCalm pp_urls login_cgi_interface panel_cgi_interface reboot_form account_form
        net_form update_form cent_rmt_form
    pp_urls-AllCalm = (
      λ params s calm. calm,
      (
        λ params s calm. calm,
        (
          λ params s calm.
              Returns-and_then (Unit {0}) (λ r. IsCalm r.1) (λ r. IsCalm r.1)
                (on_web_control (cent_rmt_cgi_interface params) s) _
                (on_web_control-SiteKeeps (Unit {0}) (cent_rmt_cgi_interface params)
                  (cent_rmt-Keeps params) s calm)
                (λ r calm'. calm'),
          (
            λ params s calm. calm,
            (
              λ params s calm.
                  apart-SiteKeeps _ _ (account_cgi_interface-NeverWaits store params s.account)
                    (λ t. calm),
              (
                λ params s calm.
                    apart-SiteKeeps _ _ (net_cgi_interface-NeverWaits inet params s.net)
                      (λ t. calm),
                (
                  λ params s calm.
                      apart-SiteKeeps _ _ (update_cgi_interface-NeverWaits params s.update)
                        (λ t. calm),
                  (
                    λ params. ports_form-SiteKeeps o _ params (
                        on_pages-SiteKeeps (Unit {0}) _
                          (opt_cgi_interface-PagesKeep cmds link delivers params)),
                    (
                      λ params. ports_form-SiteKeeps o _ params (
                          on_pages-SiteKeeps (Unit {0}) _
                            (eth_cgi_interface-PagesKeep cmds link delivers params)),
                      (
                        λ params. ports_form-SiteKeeps o _ params (
                            on_pages-SiteKeeps (Unit {0}) _
                              (e1_cgi_interface-PagesKeep cmds link delivers params)),
                        tt,
                      ),
                    ),
                  ),
                ),
              ),
            ),
          ),
        ),
      ),
    )

  -- The answer to a form, if there is one.
  abbrev pub AnswerCalm : Option (Outcome (CgiPage × Site S)) → Type 0
  AnswerCalm none = Unit
  AnswerCalm (some r) = Returns (Unit {0}) (λ r. IsCalm r.1) r

  answer-AnswerCalm :
      (o : Outside S) (urls : List (Text × CgiHandler S)) (name : Text)
      (params : List (Text × Text)) (s : Site S)
      → AllCalm urls
      → IsCalm s
      → AnswerCalm (request o urls name params s)
  unfolding AllCalm request
  answer-AnswerCalm o [] name params s all calm = tt
  answer-AnswerCalm o ((url, handler) ∷ urls) name params s (keeps, all) calm =
      elim (Bool-cases (text_equal name url)) [
        | inl e ↦ rw (request, e) (keeps params s calm)
        | inr e ↦ rw (request, e) (answer-AnswerCalm o urls name params s all calm)
      ]

  pub request-AnswerCalm :
      (o : Outside S) (name : Text) (params : List (Text × Text)) (s : Site S)
      → Supplies (Unit {0}) o.link
      → IsCalm s
      → AnswerCalm (request o (pp_urls o) name params s)
  request-AnswerCalm o name params s delivers calm =
      answer-AnswerCalm o (pp_urls o) name params s (pp_urls-AllCalm o delivers) calm
