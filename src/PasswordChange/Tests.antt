-- ===== src/PasswordChange/Tests.antt =====
-- The password of "kim", who has one running pod and one that is stopped.
use admin_infra_proposed.Base.{
  String, true, false, none, some, [], ◌∷◌, ◌≡◌, refl, if◌then◌else◌, ◌==◌, joined,
}
use admin_infra_proposed.Ledger.{entry}
use admin_infra_proposed.Requests.Hashes.{is_sha512_crypt}
use admin_infra_proposed.PasswordChange.{
  Places, replied, lost, Answers, changed, user_not_found, pod_password_sync_failed,
  step_change_login_password,
}
use admin_infra_proposed.PasswordChange.InForce.{InForce}
use admin_infra_proposed.PasswordChange.Whole.{IsWhole, OthersKeep, step_change_login_password_lem}
use admin_infra_proposed.PasswordChange.Again.{AllReply, has_entry, again_changes}

abbrev digest : String
digest = "0123456789abcdefghijklmnopqrstuvwxyzABCDEFGHIJKLMNOPQRSTUVWXYZ./0123456789abcdefghijkl"

abbrev old : String
old = joined "$6$rounds=5000$salt$" digest

abbrev new : String
new = joined "$6$pepper$" digest

crypt_hashes : is_sha512_crypt old ≡ true
unfolding is_sha512_crypt
crypt_hashes = refl

locked_is_not_crypt : is_sha512_crypt (joined "!" old) ≡ false
unfolding is_sha512_crypt
locked_is_not_crypt = refl

abbrev places : Places
places = record {
  ledger =
      entry (record { name = "lee"; passwd = "x"; lastchg = 1 })
      ∷ entry (record { name = "kim"; passwd = old; lastchg = 1 })
      ∷ [];
  pods =
      record { name = "a"; running = true; secret = some old; password = old }
      ∷ record { name = "b"; running = false; secret = none; password = old }
      ∷ [];
}

abbrev all_reply : Answers
all_reply = record {
  writes_ledger = true;
  lists_for_secrets = true;
  patches = λ pod. replied;
  lists_for_pods = true;
  executes = λ pod. replied;
}

abbrev pod_lost : Answers
pod_lost = record all_reply { executes = λ pod. if pod == "a" then lost else replied }

abbrev cut_off : Answers
cut_off = record all_reply { lists_for_secrets = false }

changes : (step_change_login_password 9 all_reply all_reply "kim" new places).0 ≡ changed
unfolding step_change_login_password
changes = refl

rolls_back :
    (step_change_login_password 9 pod_lost all_reply "kim" new places).0
    ≡ pod_password_sync_failed true
unfolding step_change_login_password
rolls_back = refl

stays_torn :
    (step_change_login_password 9 pod_lost cut_off "kim" new places).0
    ≡ pod_password_sync_failed false
unfolding step_change_login_password
stays_torn = refl

nobody : (step_change_login_password 9 all_reply all_reply "park" new places).0 ≡ user_not_found
unfolding step_change_login_password
nobody = refl

all_reply-AllReply : AllReply all_reply
all_reply-AllReply = record {
  writes_ledger = refl;
  lists_for_secrets = refl;
  patches = λ pod. refl;
  lists_for_pods = refl;
  executes = λ pod. refl;
}

kim_has_entry : has_entry "kim" places.ledger ≡ true
unfolding has_entry
kim_has_entry = refl

step_change_login_password_lem_example :
    let r = step_change_login_password 9 pod_lost all_reply "kim" new places in
    IsWhole "kim" new places r.0 r.1 × OthersKeep "kim" places.ledger r.1.ledger
step_change_login_password_lem_example =
    step_change_login_password_lem 9 pod_lost all_reply "kim" new places

again_changes_example :
    let s' = (step_change_login_password 9 pod_lost cut_off "kim" new places).1 in
    let r = step_change_login_password 9 all_reply all_reply "kim" new s' in
    (r.0 ≡ changed) × InForce "kim" new r.1
again_changes_example =
    again_changes 9 pod_lost cut_off all_reply all_reply "kim" new places kim_has_entry
      all_reply-AllReply
