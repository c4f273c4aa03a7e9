-- ===== src/Site/Boards.antt =====
-- The tags of the boards' page against a device, whatever was asked of the site before.
use arm_ucos_proxy.Base.{ℕ, suc, ◌≤◌, ◌≡◌, refl, List, [], ◌∷◌, length}
use arm_ucos_proxy.Base.Outcome.{done, Action, ◌>>=◌}
use arm_ucos_proxy.Tftp.Packet.{codes}
use arm_ucos_proxy.Comm.State.{WebCtrlComm}
use arm_ucos_proxy.Comm.Responds.{Device, present}
use arm_ucos_proxy.Ports.Text.{Text, text_equal}
use arm_ucos_proxy.Ports.State.{on_control}
use arm_ucos_proxy.Boards.Table.{board_line_ssi_handler, board_line1_ssi_handler}
use arm_ucos_proxy.Boards.Shown.{page_boards, line_of, HasVersions, board_lines-Shown}
use arm_ucos_proxy.Site.State.{Site, Outside, on_web_control}
use arm_ucos_proxy.Site.Ssi.{httpd_ssi_objs, ssi_handler, tag_index}
use arm_ucos_proxy.Site.Tags.{show_tag}
use arm_ucos_proxy.Site.Reach.{Reach, IsStart, Reach-IsCalm}

-- The tags of the lines 2 to 8.
abbrev pub line_tags : List Text
line_tags =
    codes "board_line2"
    ∷ codes "board_line3"
    ∷ codes "board_line4"
    ∷ codes "board_line5"
    ∷ codes "board_line6"
    ∷ codes "board_line7"
    ∷ codes "board_line8"
    ∷ []

module _ {S : Type 0} (o : Outside S) (d : Device o.cmds o.link) where
  open o use {cmds, link, version_ntoa}

  -- Each tag shows the board of its line, the first of them that of line k + 1, and changes nothing.
  abbrev pub LinesShow : List ℕ → ℕ → List Text → Site S → Type 0
  LinesShow boards k [] u = Unit
  LinesShow boards k (tag ∷ tags) u =
      ((old : Text)
        → show_tag o tag old u
          ≡ done (line_of cmds link d version_ntoa boards k u.pages.web_control, u))
      × LinesShow boards (suc k) tags u

  control-shows :
      (act : Action WebCtrlComm Text) (s : Site S) (text : Text) (c : WebCtrlComm)
      → act s.pages.web_control ≡ done (text, c)
      → on_web_control act s
        ≡ done (text, record s { pages = record (s.pages) { web_control = c } })
  control-shows act s text c e = rw (◌>>=◌, on_control, e) refl

  -- After any forms, tags and turns since start up, against a device on the link that answers the
  -- same whatever was sent to it before: the tag of the first line returns and shows the first of the boards that answered for their version, and from
  -- then on the tags of the lines 2 to 8 show the others, one after the other, with a space behind
  -- the last. Each board that answered has the version that it answered in its row.
  -- (version_ntoa keeps within its eight characters.)
  pub Reach-shows_boards :
      {s t : Site S}
      → ((ver : ℕ) → length (o.version_ntoa ver) ≤ 7)
      → IsStart o s
      → Reach o s t
      → (old : Text)
      → let found = present cmds link d t.pages.web_control.cr_remote_chosen in
        let boards = page_boards cmds link d found in
        (u : Site S) × (show_tag o (codes "board_line1") old t
          ≡ done (line_of cmds link d version_ntoa boards 0 u.pages.web_control, u))
        × LinesShow boards 1 line_tags u
        × HasVersions cmds link d found u.pages.web_control.bulb_ver
  unfolding tag_index httpd_ssi_objs ssi_handler text_equal
  Reach-shows_boards {s} {t} short start r old =
      let calm = Reach-IsCalm o short start r in
      let (c, e, line, has) =
        board_lines-Shown cmds link d version_ntoa t.pages.web_control short calm.mutex
          calm.bulb_ver in
      let u = record t { pages = record (t.pages) { web_control = c } } in
      let shows =
        λ (k : ℕ). control-shows (board_line_ssi_handler version_ntoa (suc k)) u _ c (line k) in
      (
        u,
        control-shows (board_line1_ssi_handler version_ntoa cmds link) t _ c e,
        (
          λ old. shows 1,
          (
            λ old. shows 2,
            (
              λ old. shows 3,
              (λ old. shows 4, (λ old. shows 5, (λ old. shows 6, (λ old. shows 7, tt)))),
            ),
          ),
        ),
        has,
      )
