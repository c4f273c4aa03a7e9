-- ===== src/Ports/Lines.antt =====
-- The search for a port by its line finds the lines of every port and no other.
use arm_ucos_proxy.Base.{
  ℕ, zero, suc, ◌+◌, ◌≤◌, ◌<◌, ◌≡◌, ◌⊎◌, inl, inr, refl, ◌∙◌, ap, List, [], ◌∷◌, none, some, length,
  map, get_or, take, ==_ne, arith,
}
use arm_ucos_proxy.Comm.State.{WebOpt, WebCtrlComm}
use arm_ucos_proxy.Ports.Opt.{opt_get_msg_according_to_lineno}
use arm_ucos_proxy.Ports.State.{port_of_line, find_line}

-- The number of ports of some boards.
unfoldable pub total : List ℕ → ℕ
total [] = 0
total (n ∷ ns) = n + total ns

port_of_line-hit :
    (n j sum p lineno : ℕ)
    → p < n
    → lineno ≡ sum + j + p + 1
    → port_of_line n j sum lineno ≡ some (j + p)
unfolding port_of_line
port_of_line-hit zero j sum p lineno h e = absurd (omega arith)
port_of_line-hit (suc n) j sum zero lineno h e = ground arith
port_of_line-hit (suc n) j sum (suc p) lineno h e =
    let ih = port_of_line-hit n (j + 1) sum p lineno (omega arith) (omega arith) in
    let same : j + 1 + p ≡ j + suc p = omega arith in
    rw (==_ne (sum + j + 1) lineno (λ q. absurd (omega arith))) (ih ∙ ap some same)

port_of_line-miss : (n j sum lineno : ℕ) → lineno ≤ sum + j → port_of_line n j sum lineno ≡ none
unfolding port_of_line
port_of_line-miss zero j sum lineno h = refl
port_of_line-miss (suc n) j sum lineno h =
    let ih = port_of_line-miss n (j + 1) sum lineno (omega arith) in ground arith

port_of_line-over : (n j sum lineno : ℕ) → sum + j + n < lineno → port_of_line n j sum lineno ≡ none
unfolding port_of_line
port_of_line-over zero j sum lineno h = refl
port_of_line-over (suc n) j sum lineno h =
    let ih = port_of_line-over n (j + 1) sum lineno (omega arith) in ground arith

pub find_line-hit :
    (amounts : List ℕ) (i sum board portno lineno : ℕ)
    → board < length amounts
    → portno < get_or amounts board 0
    → lineno ≡ sum + total (take board amounts) + portno + 1
    → find_line amounts i sum lineno ≡ some (i + board, portno)
unfolding find_line total
find_line-hit [] i sum board portno lineno h h' e = absurd (omega arith)
find_line-hit (n ∷ ns) i sum zero portno lineno h h' e =
    let found : port_of_line n 0 sum lineno ≡ some portno =
      port_of_line-hit n 0 sum portno lineno h' (omega arith) ∙ ap some (omega arith) in
    rw (find_line, found) (ap (λ k. some (k, portno)) (omega arith))
find_line-hit (n ∷ ns) i sum (suc b) portno lineno h h' e =
    let below : n ≤ n + total (take b ns) = omega arith in
    rw (find_line, port_of_line-over n 0 sum lineno (omega arith))
      (find_line-hit ns (i + 1) (sum + n) b portno lineno (omega arith) h' (omega arith)
        ∙ ap (λ k. some (k, portno)) (omega arith))

pub find_line-none :
    (amounts : List ℕ) (i sum lineno : ℕ)
    → (lineno ≤ sum) ⊎ (sum + total amounts < lineno)
    → find_line amounts i sum lineno ≡ none
unfolding find_line total
find_line-none [] i sum lineno h = refl
find_line-none (n ∷ ns) i sum lineno (inl h) =
    rw (find_line, port_of_line-miss n 0 sum lineno (omega arith))
      (find_line-none ns (i + 1) (sum + n) lineno (inl (omega arith)))
find_line-none (n ∷ ns) i sum lineno (inr h) =
    rw (find_line, port_of_line-over n 0 sum lineno (omega arith))
      (find_line-none ns (i + 1) (sum + n) lineno (inr (omega arith)))

-- The line of a port of the optical page's table is its place among all ports, in the order of the
-- boards, counted from 1. The search for this line finds the port's board and number.
pub opt_get_msg_according_to_lineno-hit :
    (s : WebCtrlComm) (board portno : ℕ)
    → let amounts = map (λ (r : WebOpt). r.amount) s.opt in
      board < length amounts
      → portno < get_or amounts board 0
      → opt_get_msg_according_to_lineno (total (take board amounts) + portno + 1) s
        ≡ some (board, portno)
unfolding opt_get_msg_according_to_lineno
opt_get_msg_according_to_lineno-hit s board portno h h' =
    find_line-hit (map (λ r. r.amount) s.opt) 0 0 board portno _ h h' (omega arith)
    ∙ ap (λ k. some (k, portno)) (omega arith)
