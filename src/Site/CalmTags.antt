-- ===== src/Site/CalmTags.antt =====
-- The tags leave the boards' tables tidy and never wait for ever.
use arm_ucos_proxy.Base.{
  arith, ℕ, suc, ◌≤◌, ◌||◌, sym, subst, Bool, true, false, Bool-cases, Option-cases, inl, inr, List,
  [], ◌∷◌, none, some, length, get_elem?, ◌++◌, take, length-append, length-take,
}
use arm_ucos_proxy.Base.Outcome.{
  Outcome, done, fault, Status, ok, err, Action, and_then, Returns, NeverWaits, Returns-and_then,
  Returns-bind,
}
use arm_ucos_proxy.Tftp.Packet.{codes}
use arm_ucos_proxy.Comm.Keeps.{Supplies}
use arm_ucos_proxy.Ports.Text.{Text, FitsTag, text_equal, text_equal-eq}
use arm_ucos_proxy.Ports.Keeps.{
  PagesGive, opt_read_data-PagesGive, e1_read_data-PagesGive, eth_read_data-PagesGive,
}
use arm_ucos_proxy.Comm.State.{WebCtrlComm}
use arm_ucos_proxy.Comm.Tidy.{IsTidy}
use arm_ucos_proxy.Ports.State.{PortPages, on_control}
use arm_ucos_proxy.Ports.Opt.{opt_config_status_ssi_handler}
use arm_ucos_proxy.Ports.Eth.{eth_config_status_ssi_handler}
use arm_ucos_proxy.Ports.E1.{e1_config_status_ssi_handler}
use arm_ucos_proxy.Pages.Remote.{cent_rmt_read_ssi_handler}
use arm_ucos_proxy.Admin.Account.{
  AccountStatus, changed, not_changed, incorrect, account_status_ssi_handler,
}
use arm_ucos_proxy.Admin.Network.{net_config_status_ssi_handler}
use arm_ucos_proxy.Boards.Keeps.{Gives, board_line-Gives, board_line1-Gives, panel-Gives}
use arm_ucos_proxy.Admin.Waits.{
  update_status_ssi_handler-FitsTag, net_read_data_ssi_handler-NeverWaits,
}
use arm_ucos_proxy.Site.State.{Site, Outside, on_pages, on_web_control}
use arm_ucos_proxy.Site.Ssi.{SsiHandler, httpd_ssi_objs, ssi_handler, tag_index, board_line}
use arm_ucos_proxy.Site.Tags.{show_tag, unknown_tag}
use arm_ucos_proxy.Site.Tidy.{IsCalm}

-- The tags whose texts are made of what the rest of the firmware gives.
unfoldable pub is_outer : Text → Bool
is_outer tag = text_equal tag (codes "login_usrpswd") || text_equal tag (codes "net_read_data")

abbrev pub MayOverrun : Bool → Text → Type 0
MayOverrun true text = Unit {0}
MayOverrun false text = FitsTag text

-- The tags whose handlers may fault by themselves: the texts of the configuration go through 64
-- bytes, and the status of an update divides by the length of the file.
unfoldable pub is_partial : Text → Bool
is_partial tag = text_equal tag (codes "net_read_data") || text_equal tag (codes "update_status")

abbrev pub MayFault : Type 0 → Bool → Type 0
MayFault may_fault true = Unit {0}
MayFault may_fault false = may_fault

opt_status-FitsTag : (p : PortPages) → FitsTag (opt_config_status_ssi_handler p)
unfolding opt_config_status_ssi_handler
opt_status-FitsTag p = ground arith

eth_status-FitsTag : (p : PortPages) → FitsTag (eth_config_status_ssi_handler p)
unfolding eth_config_status_ssi_handler
eth_status-FitsTag p = ground arith

e1_status-FitsTag : (p : PortPages) → FitsTag (e1_config_status_ssi_handler p)
unfolding e1_config_status_ssi_handler
e1_status-FitsTag p = ground arith

net_status-FitsTag : (r : Status) → FitsTag (net_config_status_ssi_handler r)
unfolding net_config_status_ssi_handler
net_status-FitsTag ok = omega arith
net_status-FitsTag err = omega arith

account_status-FitsTag : (r : AccountStatus) → FitsTag (account_status_ssi_handler r)
unfolding account_status_ssi_handler
account_status-FitsTag changed = omega arith
account_status-FitsTag not_changed = omega arith
account_status-FitsTag incorrect = omega arith

cent_rmt_read-FitsTag : (s : WebCtrlComm) → FitsTag (cent_rmt_read_ssi_handler s)
unfolding cent_rmt_read_ssi_handler
cent_rmt_read-FitsTag s = ground arith

unknown_tag-FitsTag : (tag : Text) → FitsTag (unknown_tag tag)
unknown_tag-FitsTag tag = omega (
  arith,
  length-append (codes "<b>***UNKNOWN TAG " ++ take 486 tag) (codes "***</b>"),
  length-append (codes "<b>***UNKNOWN TAG ") (take 486 tag),
  length-append (take 486 tag) (codes "***</b>"),
  length-take 486 tag,
)

unknown_tag-MayOverrun : (outer : Bool) (tag : Text) → MayOverrun outer (unknown_tag tag)
unknown_tag-MayOverrun true tag = tt
unknown_tag-MayOverrun false tag = unknown_tag-FitsTag tag

module _ {S : Type 0} (o : Outside S) where
  open o use {cmds, link, version_ntoa}

  -- What a tag does: it leaves the site calm and gives a text that the buffer holds.
  abbrev pub TagCalm : Type 0 → Text → Outcome (Text × Site S) → Type 0
  TagCalm may_fault tag =
      Returns (MayFault may_fault (is_partial tag))
        (λ r. IsCalm r.1 × MayOverrun (is_outer tag) r.0)

  unfoldable AllCalm : Type 0 → List (Text × SsiHandler S) → Type 0
  AllCalm may_fault [] = Unit
  AllCalm may_fault ((tag, handler) ∷ objs) =
      ((old : Text) → FitsTag old → (s : Site S) → IsCalm s → TagCalm may_fault tag (handler old s))
      × AllCalm may_fault objs

  module _ (may_fault : Type 0) (delivers : Supplies may_fault o.link)
      (short : (ver : ℕ) → length (o.version_ntoa ver) ≤ 7) where
    abbrev SiteGives : Action (Site S) Text → Type 0
    SiteGives act =
        (s : Site S) → IsCalm s → Returns may_fault (λ r. IsCalm r.1 × FitsTag r.0) (act s)

    of_pages : (act : Action PortPages Text) → PagesGive may_fault act → SiteGives (on_pages act)
    of_pages act gives s calm =
        Returns-and_then may_fault (λ r. IsTidy 1 r.1.web_control × FitsTag r.0)
          (λ r. IsCalm r.1 × FitsTag r.0) (act s.pages) _ (gives s.pages calm) (λ r h. h)

    of_control :
        (act : Action WebCtrlComm Text) → Gives may_fault act → SiteGives (on_web_control act)
    of_control act gives = of_pages (on_control act) λ p tidy.
        Returns-bind may_fault (λ r. IsTidy 1 r.1 × FitsTag r.0)
          (λ r. IsTidy 1 r.1.web_control × FitsTag r.0) (act p.web_control)
          (λ a c. done (a, record p { web_control = c })) (gives p.web_control tidy) (λ a c h. h)

    -- A handler that only shows the state.
    show_only :
        (show : Outcome Text) (s : Site S)
        → IsCalm s
        → NeverWaits show
        → Returns
            (Unit {0})
            (λ (r : Text × Site S). IsCalm r.1 × Unit {0})
            (and_then show λ text. done (text, s))
    show_only show s calm h =
        Returns-and_then (Unit {0}) (λ t. Unit {0}) (λ r. IsCalm r.1 × Unit {0}) show _ h
          (λ t u. (calm, tt))

    show_fitting :
        (show : Outcome Text) (s : Site S)
        → IsCalm s
        → Returns (Unit {0}) FitsTag show
        → Returns
            (Unit {0})
            (λ (r : Text × Site S). IsCalm r.1 × FitsTag r.0)
            (and_then show λ text. done (text, s))
    show_fitting show s calm h =
        Returns-and_then (Unit {0}) FitsTag (λ r. IsCalm r.1 × FitsTag r.0) show _ h
          (λ t fits. (calm, fits))

    line : (k : ℕ) (old : Text) → FitsTag old → SiteGives (board_line o (suc k) old)
    line k old room = of_control _ (board_line-Gives may_fault version_ntoa short k)

    httpd_ssi_objs-AllCalm : AllCalm may_fault (httpd_ssi_objs o)
    unfolding AllCalm httpd_ssi_objs is_partial is_outer text_equal
    httpd_ssi_objs-AllCalm = (
      λ old room s calm. (calm, tt),
      (
        λ old room. of_control _ (panel-Gives may_fault cmds link delivers),
        (
          λ old room s calm. (calm, cent_rmt_read-FitsTag s.pages.web_control),
          (
            λ old room s calm. (calm, account_status-FitsTag s.account.account_status),
            (
              λ old room s calm. show_only _ s calm (net_read_data_ssi_handler-NeverWaits _ _ _),
              (
                λ old room s calm. (calm, net_status-FitsTag s.net.net_config_status),
                (
                  λ old room s calm.
                      show_fitting _ s calm (update_status_ssi_handler-FitsTag s.update.client),
                  (
                    λ old room.
                        of_control _
                          (board_line1-Gives may_fault version_ntoa short cmds link delivers),
                    (
                      line 1,
                      (
                        line 2,
                        (
                          line 3,
                          (
                            line 4,
                            (
                              line 5,
                              (
                                line 6,
                                (
                                  line 7,
                                  (
                                    line 7,
                                    (
                                      line 9,
                                      (
                                        λ old room. of_pages _ (
                                            opt_read_data-PagesGive may_fault cmds link delivers old
                                              room),
                                        (
                                          λ old room s calm. (calm, opt_status-FitsTag s.pages),
                                          (
                                            λ old room. of_pages _ (
                                                eth_read_data-PagesGive may_fault cmds link
                                                  delivers),
                                            (
                                              λ old room s calm. (calm, eth_status-FitsTag s.pages),
                                              (
                                                λ old room. of_pages _ (
                                                    e1_read_data-PagesGive may_fault cmds link
                                                      delivers old room),
                                                (
                                                  λ old room s calm.
                                                      (calm, e1_status-FitsTag s.pages),
                                                  tt,
                                                ),
                                              ),
                                            ),
                                          ),
                                        ),
                                      ),
                                    ),
                                  ),
                                ),
                              ),
                            ),
                          ),
                        ),
                      ),
                    ),
                  ),
                ),
              ),
            ),
          ),
        ),
      ),
    )

    -- The handler of the tag, in a table of handlers that keep the site calm.
    show-TagCalm :
        (tag old : Text) (objs : List (Text × SsiHandler S)) (s : Site S)
        → AllCalm may_fault objs
        → FitsTag old
        → IsCalm s
        → TagCalm may_fault tag (elim (tag_index o tag objs) [
          | none ↦ done (unknown_tag tag, s)
          | some index ↦ (elim (get_elem? objs index) [
            | none ↦ fault
            | some (t, handler) ↦ handler old s
          ])
        ])
    unfolding tag_index AllCalm
    show-TagCalm tag old [] s all room calm = (calm, unknown_tag-MayOverrun (is_outer tag) tag)
    show-TagCalm tag old ((t, handler) ∷ objs) s (keeps, all) room calm =
        elim (Bool-cases (text_equal tag t)) [
          | inl e ↦
              rw (tag_index, e)
                (subst (λ (name : Text). TagCalm may_fault name (handler old s))
                  (sym (text_equal-eq tag t e)) (keeps old room s calm))
          | inr e ↦
              let later = show-TagCalm tag old objs s all room calm in
              elim (Option-cases (tag_index o tag objs)) [
                | inl e' ↦ rw (tag_index, e, e') (calm, unknown_tag-MayOverrun (is_outer tag) tag)
                | inr (i, e') ↦ rw (tag_index, e, e') (rw e' at later)
              ]
        ]

    pub show_tag-TagCalm :
        (tag old : Text) (s : Site S)
        → FitsTag old
        → IsCalm s
        → TagCalm may_fault tag (show_tag o tag old s)
    unfolding ssi_handler
    show_tag-TagCalm tag old s room calm =
        show-TagCalm tag old (httpd_ssi_objs o) s httpd_ssi_objs-AllCalm room calm
