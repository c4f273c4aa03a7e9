-- ===== src/Ports/Digits.antt =====
-- What a page's script reads back from the digits of a port.
use arm_ucos_proxy.Base.{
  ℕ, ◌+◌, ◌-◌, ◌*◌, ◌/◌, ◌%◌, ◌<◌, ◌≡◌, refl, List, [], ◌∷◌, ltb, leb, if◌then◌else◌, arith,
}
use arm_ucos_proxy.Ports.Text.{Text, ntoalpha, hex_digit}
use arm_ucos_proxy.Ports.Opt.{opt_make_data}

-- The number of a digit, a lower case or an upper case letter.
unfoldable pub alpha_value : ℕ → ℕ
alpha_value c = if ltb c 58 then c - 48 else if leb 97 c then c - 87 else c - 29

unfoldable pub hex_value : ℕ → ℕ → ℕ
hex_value hi lo = 16 * alpha_value hi + alpha_value lo

pub alpha_value-ntoalpha : (n : ℕ) → n < 62 → alpha_value (ntoalpha n) ≡ n
unfolding alpha_value ntoalpha
alpha_value-ntoalpha n h = ground arith

alpha_value-hex_digit : (n : ℕ) → n < 16 → alpha_value (hex_digit n) ≡ n
unfolding alpha_value hex_digit
alpha_value-hex_digit n h = ground arith

pub hex_value-hex2 :
    (x : ℕ) → x < 256 → hex_value (hex_digit (x / 16 % 16)) (hex_digit (x % 16)) ≡ x
unfolding hex_value
hex_value-hex2 x h =
    let hi = alpha_value-hex_digit (x / 16 % 16) (omega arith) in
    let lo = alpha_value-hex_digit (x % 16) (omega arith) in omega (arith, hi, lo)

unfoldable pub read_port : Text → List ℕ
read_port (b ∷ p ∷ c ∷ c' ∷ s ∷ s' ∷ []) =
    alpha_value b ∷ alpha_value p ∷ hex_value c c' ∷ hex_value s s' ∷ []
read_port _ = []

-- The six characters of an optical port determine its board and number, below 62, and its bytes.
pub opt_make_data-read_port :
    (board portno cfg state : ℕ)
    → board < 62
    → portno < 62
    → cfg < 256
    → state < 256
    → read_port (opt_make_data board portno cfg state) ≡ board ∷ portno ∷ cfg ∷ state ∷ []
unfolding read_port opt_make_data
opt_make_data-read_port board portno cfg state hb hp hc hs =
    rw
      (
        alpha_value-ntoalpha board hb,
        alpha_value-ntoalpha portno hp,
        hex_value-hex2 cfg hc,
        hex_value-hex2 state hs,
      )
      refl
