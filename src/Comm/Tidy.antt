-- ===== src/Comm/Tidy.antt =====
-- The state that the pages' requests leave behind: what holds of it between any two requests.
use arm_ucos_proxy.Base.{
  ℕ, zero, suc, ◌≤◌, ◌≡◌, refl, sym, subst, ◌∙◌, List, [], ◌∷◌, length, get_or, set, replicate,
  length-set, length-replicate, get_or-replicate, arith,
}
use arm_ucos_proxy.Comm.State.{
  WebOpt, WebEth, WebE1, WebBulbVer, WebCtrlComm, zero_opt, zero_eth, zero_e1,
  ctrl_web_control_comm_init,
}

-- The ports of a row lie in its arrays.
pub record IsOptRow (row : WebOpt) : Type 0 where
  pub config : length row.config ≡ 8
  pub state : length row.state ≡ 8
  pub amount : row.amount ≤ 2

pub record IsEthRow (row : WebEth) : Type 0 where
  pub ge : length row.ge ≡ 4
  pub fe : length row.fe ≡ 16
  pub ge_amount : row.ge_amount ≤ 2
  pub fe_amount : row.fe_amount ≤ 6

pub record IsE1Row (row : WebE1) : Type 0 where
  pub config : length row.config ≡ 8
  pub state : length row.state ≡ 8
  pub amount : row.amount ≤ 8

-- A table of nine good rows.
pub record IsTable {A : Type 0} (IsRow : A → Type 0) (blank : A) (rows : List A) : Type 0 where
  pub size : length rows ≡ 9
  pub row : (j : ℕ) → IsRow (get_or rows j blank)

-- The tables are good, and the mutex has the count.
pub record IsTidy (count : ℕ) (s : WebCtrlComm) : Type 0 where
  pub mutex : s.ll_access_mtx ≡ count
  pub body : length s.frame.body ≡ 256
  pub bulb_ver : length s.bulb_ver ≡ 9
  pub opt : IsTable IsOptRow zero_opt s.opt
  pub eth : IsTable IsEthRow zero_eth s.eth
  pub e1 : IsTable IsE1Row zero_e1 s.e1

module _ {A : Type 0} (IsRow : A → Type 0) (blank : A) where
  get_or-set :
      (rows : List A) (i : ℕ) (v : A)
      → ((j : ℕ) → IsRow (get_or rows j blank))
      → IsRow v
      → (j : ℕ) → IsRow (get_or (set rows i v) j blank)
  get_or-set [] i v h good j = h j
  get_or-set (row ∷ rows) zero v h good zero = good
  get_or-set (row ∷ rows) zero v h good (suc j) = h (suc j)
  get_or-set (row ∷ rows) (suc i) v h good zero = h zero
  get_or-set (row ∷ rows) (suc i) v h good (suc j) = get_or-set rows i v (λ k. h (suc k)) good j

  pub set-IsTable :
      (rows : List A) (i : ℕ) (v : A)
      → IsTable IsRow blank rows
      → IsRow v
      → IsTable IsRow blank (set rows i v)
  set-IsTable rows i v t good = record {
    size = length-set rows i v ∙ t.size;
    row = get_or-set rows i v t.row good;
  }

  pub replicate-IsTable : IsRow blank → IsTable IsRow blank (replicate 9 blank)
  replicate-IsTable good = record {
    size = length-replicate 9 blank;
    row = λ j. subst IsRow (sym (get_or-replicate 9 j blank)) good;
  }

pub zero_opt-IsOptRow : IsOptRow zero_opt
zero_opt-IsOptRow = record { config = refl; state = refl; amount = omega arith }

pub zero_eth-IsEthRow : IsEthRow zero_eth
zero_eth-IsEthRow = record {
  ge = refl;
  fe = refl;
  ge_amount = omega arith;
  fe_amount = omega arith;
}

pub zero_e1-IsE1Row : IsE1Row zero_e1
zero_e1-IsE1Row = record { config = refl; state = refl; amount = omega arith }

-- The state that the program starts with.
pub init-IsTidy : IsTidy 1 ctrl_web_control_comm_init
unfolding ctrl_web_control_comm_init
init-IsTidy = record {
  mutex = refl;
  body = refl;
  bulb_ver = refl;
  opt = replicate-IsTable IsOptRow zero_opt zero_opt-IsOptRow;
  eth = replicate-IsTable IsEthRow zero_eth zero_eth-IsEthRow;
  e1 = replicate-IsTable IsE1Row zero_e1 zero_e1-IsE1Row;
}

-- One table changes.
module _ {count : ℕ} {s : WebCtrlComm} (tidy : IsTidy count s) where
  open tidy use {mutex, body, bulb_ver, opt, eth, e1}

  pub bulb_ver-IsTidy :
      (rows : List WebBulbVer) → length rows ≡ 9 → IsTidy count (record s { bulb_ver = rows })
  bulb_ver-IsTidy rows size = record {
    mutex = mutex;
    body = body;
    bulb_ver = size;
    opt = opt;
    eth = eth;
    e1 = e1;
  }

  pub opt-IsTidy :
      (rows : List WebOpt) → IsTable IsOptRow zero_opt rows → IsTidy count (record s { opt = rows })
  opt-IsTidy rows t = record {
    mutex = mutex;
    body = body;
    bulb_ver = bulb_ver;
    opt = t;
    eth = eth;
    e1 = e1;
  }

  pub eth-IsTidy :
      (rows : List WebEth) → IsTable IsEthRow zero_eth rows → IsTidy count (record s { eth = rows })
  eth-IsTidy rows t = record {
    mutex = mutex;
    body = body;
    bulb_ver = bulb_ver;
    opt = opt;
    eth = t;
    e1 = e1;
  }

  pub e1-IsTidy :
      (rows : List WebE1) → IsTable IsE1Row zero_e1 rows → IsTidy count (record s { e1 = rows })
  e1-IsTidy rows t = record {
    mutex = mutex;
    body = body;
    bulb_ver = bulb_ver;
    opt = opt;
    eth = eth;
    e1 = t;
  }
