-- ===== src/Ports/State.antt =====
-- What the three pages share: their state and the search for a port by its line.
use arm_ucos_proxy.Base.{ℕ, zero, suc, ◌+◌, List, [], ◌∷◌, Option, none, some, ◌==◌, if◌then◌else◌}
use arm_ucos_proxy.Base.Outcome.{done, fault, blocked, Status, Action}
use arm_ucos_proxy.Comm.State.{WebCtrlComm}

-- The pages' state is web_control and the static results of the last configurations.
pub record PortPages : Type 0 where
  pub web_control : WebCtrlComm
  pub opt_config_state : Status
  pub e1_config_state : Status
  pub eth_config_state : Status

-- The pages that the handlers name.
pub data AjaxPage : Type 0 where
  opt_read : AjaxPage
  opt_write : AjaxPage
  e1_read : AjaxPage
  e1_write : AjaxPage
  eth_read : AjaxPage
  eth_write : AjaxPage

abbrev pub on_control : {A : Type 0} → Action WebCtrlComm A → Action PortPages A
on_control act s = elim (act s.web_control) [
  | done (a, c) ↦ done (a, record s { web_control = c })
  | fault ↦ fault
  | blocked ↦ blocked
]

-- The loops of the _get_msg_according_to_lineno functions over the boards' numbers of ports, from
-- board `i` with `sum` ports before it: the inner loop tests every port of the board.
unfoldable pub port_of_line : ℕ → ℕ → ℕ → ℕ → Option ℕ
port_of_line zero j sum lineno = none
port_of_line (suc n) j sum lineno =
    let rest = port_of_line n (j + 1) sum lineno in if sum + j + 1 == lineno then some j else rest

unfoldable pub find_line : List ℕ → ℕ → ℕ → ℕ → Option (ℕ × ℕ)
find_line [] i sum lineno = none
find_line (amount ∷ amounts) i sum lineno =
    let rest = find_line amounts (i + 1) (sum + amount) lineno in
    elim (port_of_line amount 0 sum lineno) [ some j ↦ some (i, j) | none ↦ rest ]
