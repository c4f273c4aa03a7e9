-- ===== src/Site/Tags.antt =====
-- What a tag shows.
use arm_ucos_proxy.Base.{ℕ, ◌≡◌, ◌≤◌, refl, none, some, get_elem?, length, take, ◌++◌, ◌-◌}
use arm_ucos_proxy.Base.Outcome.{done}
use arm_ucos_proxy.Tftp.Packet.{codes}
use arm_ucos_proxy.Ports.Text.{Text, text_equal, max_tag_insert_len}
use arm_ucos_proxy.Ports.State.{on_control}
use arm_ucos_proxy.Boards.Table.{fill_row, board_line_ssi_handler}
use arm_ucos_proxy.Boards.Lines.{set_boards, board_texts, board_common_line_ssi_handler_lem}
use arm_ucos_proxy.Site.State.{Site, Outside}
use arm_ucos_proxy.Site.Ssi.{SsiHandler, httpd_ssi_objs, ssi_handler, tag_index}

-- What get_tag_insert of httpd.c shows for a tag that has no handler.
abbrev pub unknown_tag : Text → Text
unknown_tag tag =
    codes "<b>***UNKNOWN TAG " ++ take (max_tag_insert_len - 25) tag ++ codes "***</b>"

module _ {S : Type 0} (o : Outside S) where
  open o use {version_ntoa}

  -- The text of a tag; the server answers to a tag of no handler itself.
  abbrev pub show_tag : Text → SsiHandler S
  show_tag tag old s = elim (tag_index o tag (httpd_ssi_objs o)) [
    | none ↦ done (unknown_tag tag, s)
    | some index ↦ ssi_handler o index old s
  ]

  -- If version_ntoa keeps within its eight characters, the tag of the ninth line shows the eighth
  -- of the boards that are set.
  pub show_tag-board_line9 :
      (old : Text) (s : Site S) (board : ℕ)
      → ((ver : ℕ) → length (version_ntoa ver) ≤ 7)
      → get_elem? (set_boards 0 s.pages.web_control.bulb_ver) 7 ≡ some board
      → show_tag (codes "board_line9") old s
        ≡ done (fill_row (board_texts version_ntoa board s.pages.web_control), s)
  unfolding tag_index httpd_ssi_objs ssi_handler text_equal board_line_ssi_handler
  show_tag-board_line9 old s board short eighth =
      let shown = board_common_line_ssi_handler_lem version_ntoa 7 s.pages.web_control short in
      rw (on_control, board_line_ssi_handler, shown, eighth) refl
