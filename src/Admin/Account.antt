-- ===== src/Admin/Account.antt =====
-- The account (USER/module_webserver/webserver_account.c and webserver_login.c, as compiled).
use arm_ucos_proxy.Base.{
  ◌≤◌, ◌<◌, ◌≡◌, refl, sym, ap, ◌∙◌, ◌⊎◌, inl, inr, Bool, true, false, Bool-cases, ◌&&◌, List, [],
  ◌∷◌, ◌++◌, none, some, length, ltb, if◌then◌else◌, arith,
}
use arm_ucos_proxy.Base.Outcome.{Outcome, done, fault, and_then}
use arm_ucos_proxy.Tftp.Packet.{codes}
use arm_ucos_proxy.Ports.Text.{Text, text_equal, find_cgi_parameter, fail_str, success_str}

-- struct web_account; the check sum belongs to the functions that read and write it.
pub record WebAccount : Type 0 where
  pub username : Text
  pub passwd : Text

-- What account_status says: 0, 1 and 2.
pub data AccountStatus : Type 0 where
  changed : AccountStatus
  not_changed : AccountStatus
  incorrect : AccountStatus

-- web_account_read and web_account_write are not in this repository: what one writes, the other
-- reads.
pub record AccountStore (S : Type 0) : Type 0 where
  pub web_account_read : S → WebAccount
  pub web_account_write : WebAccount → S → S
  pub read_written : (a : WebAccount) (s : S) → web_account_read (web_account_write a s) ≡ a

pub record AccountPage (S : Type 0) : Type 0 where
  pub kept : S
  pub account_status : AccountStatus

-- "incorrect"
abbrev pub incorrect_str : Text
incorrect_str = codes "incorrect"

-- The value of a parameter, without which the values are indexed by -1.
abbrev pub value_of : Text → List (Text × Text) → Outcome Text
value_of name params = elim (find_cgi_parameter name params) [
  | none ↦ fault
  | some value ↦ done value
]

-- strcpy to one of the two arrays of 64 characters.
abbrev pub copy64 : Text → Outcome Text
copy64 text = if ltb (length text) 64 then done text else fault

unfoldable pub account_status_ssi_handler : AccountStatus → Text
account_status_ssi_handler changed = success_str
account_status_ssi_handler not_changed = fail_str
account_status_ssi_handler incorrect = incorrect_str

module _ {S : Type 0} (store : AccountStore S) where
  open store use {web_account_read, web_account_write, read_written}

  -- Whether the form has the current name and password; the password is looked at only behind the
  -- right name.
  unfoldable pub is_current : List (Text × Text) → WebAccount → Outcome Bool
  is_current params account = and_then (value_of (codes "cur_user") params) λ user.
      if text_equal user account.username
      then and_then (value_of (codes "cur_passwd") params)
          (λ passwd. done (text_equal passwd account.passwd))
      else done false

  unfoldable pub new_account : List (Text × Text) → Outcome WebAccount
  new_account params = and_then (value_of (codes "new_user") params) λ user.
      and_then (copy64 user) λ username. and_then (value_of (codes "new_passwd") params) λ passwd.
        and_then (copy64 passwd) λ passwd'. done record { username = username; passwd = passwd' }

  unfoldable pub account_cgi_interface :
      List (Text × Text) → AccountPage S → Outcome (AccountPage S)
  account_cgi_interface params s =
      if ltb (length params) 2
      then done (record s { account_status = not_changed })
      else and_then (is_current params (web_account_read s.kept)) λ right.
        if right
        then and_then (new_account params) (λ account.
          done record { kept = web_account_write account s.kept; account_status = changed })
        else done (record s { account_status = incorrect })

  unfoldable pub login_usrpasswd_ssi_handler : S → Text
  login_usrpasswd_ssi_handler s =
      let account = web_account_read s in
      codes "username=" ++ account.username ++ codes ";\npasswd=" ++ account.passwd ++ codes ";\n"

-- A form of the page with all its parameters, new texts that fit, and at least two parameters.
pub record IsForm (params : List (Text × Text)) (user passwd new_user new_passwd : Text)
    : Type 0 where
  pub many : 2 ≤ length params
  pub has_user : find_cgi_parameter (codes "cur_user") params ≡ some user
  pub has_passwd : find_cgi_parameter (codes "cur_passwd") params ≡ some passwd
  pub has_new_user : find_cgi_parameter (codes "new_user") params ≡ some new_user
  pub has_new_passwd : find_cgi_parameter (codes "new_passwd") params ≡ some new_passwd
  pub user_fits : length new_user < 64
  pub passwd_fits : length new_passwd < 64

text_equal_self : (t : Text) → text_equal t t ≡ true
unfolding text_equal
text_equal_self [] = refl
text_equal_self (c ∷ t) = let ih = text_equal_self t in ground arith

text_equal_sound : (t u : Text) → text_equal t u ≡ true → t ≡ u
unfolding text_equal
text_equal_sound [] [] h = refl
text_equal_sound [] (d ∷ u) h = ground arith
text_equal_sound (c ∷ t) [] h = ground arith
text_equal_sound (c ∷ t) (d ∷ u) h =
    let e : c ≡ d = ground arith in
    let rest = text_equal_sound t u (ground arith) in rw (e, rest) refl

texts_differ :
    (t u t' u' : Text) → (text_equal t u && text_equal t' u') ≡ false → ¬ (t ≡ u × t' ≡ u')
texts_differ t u t' u' h (e, e') =
    let same : text_equal t u ≡ true = ap (text_equal t) (sym e) ∙ text_equal_self t in
    let same' : text_equal t' u' ≡ true = ap (text_equal t') (sym e') ∙ text_equal_self t' in
    ground arith

module _ {S : Type 0} (store : AccountStore S) where
  open store use {web_account_read, web_account_write, read_written}

  new_account-form :
      (params : List (Text × Text)) (user passwd new_user new_passwd : Text)
      → IsForm params user passwd new_user new_passwd
      → new_account store params ≡ done record { username = new_user; passwd = new_passwd }
  unfolding new_account
  new_account-form params user passwd new_user new_passwd form =
      let e : ltb (length new_user) 64 ≡ true = ground (arith, form.user_fits) in
      let e' : ltb (length new_passwd) 64 ≡ true = ground (arith, form.passwd_fits) in
      rw (new_account, value_of, copy64, form.has_new_user, e, form.has_new_passwd, e') refl

  is_current-form :
      (params : List (Text × Text)) (user passwd new_user new_passwd : Text) (account : WebAccount)
      → IsForm params user passwd new_user new_passwd
      → is_current store params account
        ≡ done (text_equal user account.username && text_equal passwd account.passwd)
  unfolding is_current
  is_current-form params user passwd new_user new_passwd account form =
      elim (Bool-cases (text_equal user account.username)) [
        | inl e ↦ rw (is_current, value_of, form.has_user, e, form.has_passwd) refl
        | inr e ↦ rw (is_current, value_of, form.has_user, e) refl
      ]

  -- A form with all its parameters and new texts of less than 64 characters changes the account
  -- exactly when it has the current name and password: then the new ones are stored; else the
  -- account is kept and the page says so.
  pub account_cgi_interface_lem :
      (params : List (Text × Text)) (user passwd new_user new_passwd : Text) (s : AccountPage S)
      → IsForm params user passwd new_user new_passwd
      → (s' : AccountPage S) × (account_cgi_interface store params s ≡ done s')
        × ((user ≡ (web_account_read s.kept).username
              × passwd ≡ (web_account_read s.kept).passwd
              × (web_account_read s'.kept ≡ record { username = new_user; passwd = new_passwd })
              × (account_status_ssi_handler s'.account_status ≡ success_str))
            ⊎ (¬ (
                  user ≡ (web_account_read s.kept).username
                  × passwd ≡ (web_account_read s.kept).passwd)
                × (s'.kept ≡ s.kept)
                × (account_status_ssi_handler s'.account_status ≡ incorrect_str)))
  unfolding account_cgi_interface account_status_ssi_handler
  account_cgi_interface_lem params user passwd new_user new_passwd s form =
      let account = web_account_read s.kept in
      let current = is_current-form params user passwd new_user new_passwd account form in
      let created = new_account-form params user passwd new_user new_passwd form in
      let many : ltb (length params) 2 ≡ false = ground (arith, form.many) in
      elim (Bool-cases (text_equal user account.username && text_equal passwd account.passwd)) [
        | inl e ↦ (
          record {
            kept = web_account_write record { username = new_user; passwd = new_passwd } s.kept;
            account_status = changed;
          },
          rw (account_cgi_interface, many, current, e, created) refl,
          inl (
            text_equal_sound user account.username (ground arith),
            text_equal_sound passwd account.passwd (ground arith),
            read_written record { username = new_user; passwd = new_passwd } s.kept,
            refl,
          ),
        )
        | inr e ↦ (
          record s { account_status = incorrect },
          rw (account_cgi_interface, many, current, e) refl,
          inr (texts_differ user account.username passwd account.passwd e, refl, refl),
        )
      ]
