-- ===== src/Ports/Columns.antt =====
-- The names of the ports by their lines and places, which each of the three pages has.
use arm_ucos_proxy.Base.{ℕ, ◌+◌, Bool, ◌++◌, if◌then◌else◌}
use arm_ucos_proxy.Tftp.Packet.{codes}
use arm_ucos_proxy.Ports.Text.{Text}
use arm_ucos_proxy.Ports.Decimal.{decimal}

-- A name, and a number of at most ten digits.
abbrev numbered : Text → ℕ → Text
numbered name n = name ++ decimal 10 n

unfoldable pub opt_column1_portname : ℕ → Text
opt_column1_portname lineno = numbered (codes "OPT_") lineno

unfoldable pub opt_column2_port_pos : ℕ → ℕ → Text
opt_column2_port_pos board portno = decimal 10 (board + 1) ++ numbered (codes "_OPT_") (portno + 1)

unfoldable pub eth_column2_portname : Bool → ℕ → Text
eth_column2_portname ge lineno = numbered (if ge then codes "GTH_" else codes "ETH_") lineno

unfoldable pub eth_column3_port_pos : Bool → ℕ → ℕ → Text
eth_column3_port_pos ge board portno =
    decimal 10 (board + 1) ++ numbered (if ge then codes "_GTH_" else codes "_ETH_") (portno + 1)

unfoldable pub e1_column1_portname : ℕ → Text
e1_column1_portname lineno = numbered (codes "E1_") lineno

unfoldable pub e1_column2_port_pos : ℕ → ℕ → Text
e1_column2_port_pos board portno = decimal 10 (board + 1) ++ numbered (codes "_E1_") (portno + 1)
