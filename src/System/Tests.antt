-- ===== src/System/Tests.antt =====
-- Runs of the service of system accounts on the sample organisation.
use vms_backend_testing.Base.{true, false, none, some, List, [], ◌∷◌, ◌≡◌, refl, arith}
use vms_backend_testing.Base.Text.{text_eq, normalize, trim}
use vms_backend_testing.Base.Request.{is_ok}
use vms_backend_testing.Base.Role.{super_admin, system}
use vms_backend_testing.Auth.Model.{RefreshToken}
use vms_backend_testing.Auth.Guard.{
  SystemCredential, LoginStatus, extract_token_from_header, split, can_activate,
}
use vms_backend_testing.Auth.Guard.Sessions.{bearer}
use vms_backend_testing.Organization.Model.{Db, Env}
use vms_backend_testing.Organization.Manage.{
  edit_organization_details, store_details, check_editor, check_super_admin, upload_logo,
  code_given,
}
use vms_backend_testing.Organization.Requests.{Request, set_code, login, run, handle}
use vms_backend_testing.Organization.Tests.{
  toy_sign, toy_verify, toy_verify_sign, env_at, door, old_password, acme, boss, tablet, small,
  an_edit,
}
use vms_backend_testing.System.Accounts.{edit_system_account, verify_settings_code}
use vms_backend_testing.System.Sessions.{
  Tokens, session_payload, refreshed_payload, login_system_user, refresh_system_access_token,
  logout_system_account_web, logout_system_account,
}
use vms_backend_testing.System.Passwords.{forgot_password, mail_otp, reset_password}
use vms_backend_testing.System.Passwords.Reset.{forgot_reset_login}
use vms_backend_testing.System.Exclusive.Login.{login-lasts, login_exclusive}
use vms_backend_testing.System.Release.{
  by_tablet, end_session, end_session-revokes, release_then_login, refreshed-refused,
}
use vms_backend_testing.System.Codes.{edit_then_verify}

abbrev entered : Tokens
entered = (toy_sign (session_payload tablet 20), 21)

-- Others try to log in, and the superadmin changes the code.
abbrev meanwhile : List (Env × Request)
meanwhile =
    (env_at 110 30, login door old_password)
    ∷ (env_at 120 40, set_code 1 super_admin 9 (b'7' ∷ []))
    ∷ []

login-lasts_example :
    is_ok (
      can_activate toy_verify
        (some (bearer (toy_sign (session_payload tablet 20))))
        (run meanwhile (login_system_user (env_at 100 20) door old_password small).1).systems)
    ≡ true
unfolding login_system_user normalize trim text_eq
login-lasts_example =
    login-lasts (env_at 100 20) toy_verify door old_password entered tablet meanwhile small refl
      (omega arith) (ground arith) (ground arith) (toy_verify_sign (session_payload tablet 20)) refl
      (ground arith) refl (refl, (refl, tt))

abbrev tablet_in : SystemCredential
tablet_in = record tablet {
  activity_status = LoginStatus.logged_in;
  session_id = some 20;
  secret_code = some (b'7' ∷ []);
}

login_exclusive_example :
    is_ok
      (login_system_user
        (env_at 130 50)
        door
        old_password
        (run meanwhile (login_system_user (env_at 100 20) door old_password small).1)).0
    ≡ false
unfolding login_system_user edit_system_account run handle normalize trim text_eq
login_exclusive_example =
    login_exclusive (env_at 100 20) (env_at 130 50) door old_password door old_password entered
      tablet tablet_in meanwhile small refl (omega arith) (ground arith) refl (refl, (refl, tt))
      refl refl

abbrev busy : Db
busy = record small { systems = tablet_in ∷ [] }

end_session-revokes_example :
    is_ok (
      can_activate toy_verify
        (some (bearer (toy_sign (session_payload tablet 20))))
        (end_session 9 (by_tablet 1 system) busy).1.systems)
    ≡ false
unfolding end_session logout_system_account extract_token_from_header split
end_session-revokes_example =
    end_session-revokes toy_verify (bearer (toy_sign (session_payload tablet 20)))
      (toy_sign (session_payload tablet 20)) (session_payload tablet 20) 9 (by_tablet 1 system)
      tablet_in busy (omega arith) refl refl refl refl (toy_verify_sign (session_payload tablet 20))
      refl

release_then_login_example :
    let released = logout_system_account_web 9 1 5 super_admin busy in
    (is_ok released.0 ≡ true)
    × (is_ok (login_system_user (env_at 200 60) door old_password released.1).0 ≡ true)
unfolding normalize trim text_eq
release_then_login_example =
    release_then_login (env_at 200 60) door old_password tablet_in acme boss busy (omega arith) refl
      refl refl refl refl refl

abbrev a_token : RefreshToken
a_token = record { id = 70; token = 71; user_id = none; system_id = some 9; expiry_date = 9000 }

refreshed-refused_example :
    is_ok (
      can_activate toy_verify
        (some (bearer (toy_sign (refreshed_payload (some tablet_in)))))
        busy.systems)
    ≡ false
unfolding refresh_system_access_token
refreshed-refused_example =
    refreshed-refused (env_at 200 60) toy_verify 71
      (toy_sign (refreshed_payload (some tablet_in)), 60) busy.systems
      (record busy { refresh_tokens = a_token ∷ [] }) toy_verify_sign refl (ground arith) refl

edit_then_verify_example :
    is_ok
      (verify_settings_code
        (env_at 200 60)
        1
        system
        9
        (b'4' ∷ [])
        (edit_organization_details (env_at 100 20) 1 super_admin an_edit 5 false small).1).0
    ≡ false
unfolding edit_organization_details check_editor check_super_admin upload_logo store_details
    code_given trim text_eq
edit_then_verify_example =
    edit_then_verify (env_at 100 20) (env_at 200 60) 1 super_admin an_edit 5 false
      (b'4' ∷ b'2' ∷ []) (b'4' ∷ []) tablet small (λ t k. refl) (λ t k. ground arith) refl refl refl
      refl refl

forgot_reset_login_example :
    let reset =
      reset_password
        (env_at 300 90)
        door
        (b'1' ∷ b'2' ∷ [])
        (b'n' ∷ [])
        (forgot_password (env_at 200 60) door small).1 in
    (is_ok reset.0 ≡ true)
    × (is_ok (login_system_user (env_at 400 95) door (b'n' ∷ []) reset.1).0 ≡ true)
unfolding forgot_password mail_otp normalize trim text_eq
forgot_reset_login_example =
    forgot_reset_login (env_at 200 60) (env_at 300 90) (env_at 400 95) door (b'n' ∷ []) tablet small
      (omega arith) refl refl refl refl
