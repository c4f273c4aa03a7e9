-- ===== src/Site/Reach.antt =====
-- What holds of the site whatever was asked of it before.
use arm_ucos_proxy.Base.{ℕ, ◌≤◌, ◌≡◌, ◌≢◌, sym, subst, false, List, some, length}
use arm_ucos_proxy.Base.Outcome.{done, blocked, Returns, Returns-not_blocked, Returns-done}
use arm_ucos_proxy.Tftp.State.{Firmware}
use arm_ucos_proxy.Tftp.Update.{Wait}
use arm_ucos_proxy.Comm.State.{WebDybFrame, ctrl_web_control_comm_init}
use arm_ucos_proxy.Comm.Tidy.{IsTidy, init-IsTidy}
use arm_ucos_proxy.Comm.Answers.{IsSafe}
use arm_ucos_proxy.Comm.Keeps.{any-Supplies, fitting-Supplies}
use arm_ucos_proxy.Ports.Text.{Text, FitsTag}
use arm_ucos_proxy.Admin.Update.{UpdatePage, update_turn}
use arm_ucos_proxy.Site.State.{Site, Outside}
use arm_ucos_proxy.Site.Cgi.{CgiPage, pp_urls, request}
use arm_ucos_proxy.Site.Tags.{show_tag}
use arm_ucos_proxy.Site.Tidy.{IsCalm, AnswerCalm, request-AnswerCalm}
use arm_ucos_proxy.Site.CalmTags.{
  is_partial, is_outer, show_tag-TagCalm, TagCalm, MayOverrun, MayFault,
}

module _ {S : Type 0} (o : Outside S) where
  -- A form that is answered, a tag that is shown in a buffer whose text fits it, or a turn of the
  -- update's task.
  pub data Step : Site S → Site S → Type 0 where
    form :
        {s t : Site S} (name : Text) (params : List (Text × Text)) (page : CgiPage)
        → request o (pp_urls o) name params s ≡ some (done (page, t))
        → Step s t
    tag :
        {s t : Site S} (name old text : Text)
        → FitsTag old
        → show_tag o name old s ≡ done (text, t)
        → Step s t
    turn :
        {s : Site S} (fw : Firmware) (ws : List Wait) (u : UpdatePage)
        → update_turn fw ws s.update ≡ done u
        → Step s (record s { update = u })

  pub data Reach (s : Site S) : Site S → Type 0 where
    here : Reach s s
    next : {t u : Site S} → Reach s t → Step t u → Reach s u

  -- The site after start up: the tables are those of ctrl_web_control_comm_init.
  abbrev pub IsStart : Site S → Type 0
  IsStart s = s.pages.web_control ≡ ctrl_web_control_comm_init

  module _ (short : (ver : ℕ) → length (o.version_ntoa ver) ≤ 7) where
    Step-IsCalm : {s t : Site S} → Step s t → IsCalm s → IsCalm t
    Step-IsCalm {s} {t} (form name params page e) calm =
        subst AnswerCalm e (request-AnswerCalm o name params s (any-Supplies o.link) calm)
    Step-IsCalm {s} {t} (tag name old text room e) calm =
        (subst (TagCalm o (Unit {0}) name) e
          (show_tag-TagCalm o (Unit {0}) (any-Supplies o.link) short name old s room calm)).0
    Step-IsCalm (turn fw ws u e) calm = calm

    -- Whatever forms, tags and turns of the update's task came since start up, and whatever the link
    -- delivered: the mutex is free, the tables have nine rows, and the ports of each row lie in its
    -- arrays. (version_ntoa keeps within its eight characters.)
    pub Reach-IsCalm : {s t : Site S} → IsStart s → Reach s t → IsCalm t
    Reach-IsCalm start here = subst (IsTidy 1) (sym start) init-IsTidy
    Reach-IsCalm start (next r st) = Step-IsCalm st (Reach-IsCalm start r)

    -- Whatever forms, tags and turns of the update's task came since start up, and whatever the link
    -- delivered, no form and no tag waits for ever. (version_ntoa keeps within its eight characters,
    -- and what the buffer held before the tag fits it.)
    pub Reach-never_waits :
        {s t : Site S}
        → IsStart s
        → Reach s t
        → (url : Text) (params : List (Text × Text)) (name old : Text) → FitsTag old
        → (request o (pp_urls o) url params t ≢ some blocked) × (show_tag o name old t ≢ blocked)
    Reach-never_waits {s} {t} start r url params name old room =
        let calm = Reach-IsCalm start r in
        let link = any-Supplies o.link in
        (
          λ e. subst AnswerCalm e (request-AnswerCalm o url params t link calm),
          Returns-not_blocked _ _ _ (show_tag-TagCalm o (Unit {0}) link short name old t room calm),
        )

    -- On a link whose frames all fit, whatever forms, tags and turns of the update's task came since
    -- start up, every tag returns a text and leaves the site calm, but for the texts of the
    -- configuration and the status of an update, which may fault by themselves. (version_ntoa keeps
    -- within its eight characters, and what the buffer held before fits it.)
    pub Reach-shows :
        {s t : Site S}
        → ((sent : List WebDybFrame) → IsSafe (o.link sent))
        → IsStart s
        → Reach s t
        → (name old : Text) → FitsTag old
        → is_partial name ≡ false
        → (text : Text) × (u : Site S) × (show_tag o name old t ≡ done (text, u)) × IsCalm u
    Reach-shows {s} {t} fits start r name old room whole =
        let calms = λ (r : Text × Site S). IsCalm r.1 × MayOverrun (is_outer name) r.0 in
        let h =
          show_tag-TagCalm o ⊥ (fitting-Supplies o.link fits) short name old t room
            (Reach-IsCalm start r) in
        let ((text, u), e, (calm, fit)) =
          Returns-done calms (show_tag o name old t)
            (subst (λ b. Returns (MayFault ⊥ b) calms (show_tag o name old t)) whole h) in
        (text, u, e, calm)

    -- Whatever forms, tags and turns of the update's task came since start up, and whatever the link
    -- delivered, the text that a tag leaves in the server's buffer fits its 511 characters when what
    -- the buffer held before does, but for the tag of the login and that of the configuration.
    -- (version_ntoa keeps within its eight characters.)
    pub Reach-FitsTag :
        {s t u : Site S}
        → IsStart s
        → Reach s t
        → (name old text : Text) → FitsTag old
        → is_outer name ≡ false
        → show_tag o name old t ≡ done (text, u)
        → FitsTag text
    Reach-FitsTag {s} {t} start r name old text room inner e =
        let (calm, fit) = subst (TagCalm o (Unit {0}) name) e (
          show_tag-TagCalm o (Unit {0}) (any-Supplies o.link) short name old t room
            (Reach-IsCalm start r)) in
        subst (λ b. MayOverrun b text) inner fit
