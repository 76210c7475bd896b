-- ===== src/Server/Frame/Login.antt =====
-- USER and PASS, which set the user and the driver, and CWD and CDUP, which set the directory.
use ftpserverlib.Prelude.{ℕ, Bool, true, false, Option, none, some}
use ftpserverlib.Text.{Bytes}
use ftpserverlib.Errors.{Error}
use ftpserverlib.Session.{Callback, Env, callback, M}
use ftpserverlib.Session.Leaves.{Leaves, bind-Leaves}
use ftpserverlib.Session.Tame.{IsTame, Tame, Stays, Stays-IsFrame, Framed, callback-Framed}
use ftpserverlib.Auth.{
  verified, user_tls, user_unless, user_verified, user_from, handle_user, pass_reply, post_auth,
  authenticated, handle_pass,
}

module _ {W : Type 0} (env : Env W) (P : Bytes → Type 0) (tame : IsTame P env) where
  pub Framed-Stays : {A : Type 0} (m : M W A) → Leaves (Framed P) m → Leaves (Stays P) m
  Framed-Stays m framed = record { at = λ s. (framed.at s).2 }

  callback-Stays : {A : Type 0} (f : Callback W A) → Tame P f → Leaves (Stays P) (callback env f)
  callback-Stays f t = Framed-Stays (callback env f) (callback-Framed P env f t)

  verified-Stays :
      (user : Bytes) (r : Option ℕ × Option Error) → Leaves (Stays P) (verified env user r)
  verified-Stays user (none, none) = record { at = λ s h. h }
  verified-Stays user (some driver, none) = record { at = λ s h. h }
  verified-Stays user (driver, some e) = record { at = λ s h. h }

  user_tls-Stays : (verify : Bool) (user : Bytes) → Leaves (Stays P) (user_tls env verify user)
  user_tls-Stays false user = record { at = λ s h. h }
  user_tls-Stays true user =
      bind-Leaves (Stays P) (Stays-IsFrame P) (callback env (env.main.verify_connection user))
        (verified env user)
        (callback-Stays (env.main.verify_connection user) (tame.verify_connection_tame user))
        (verified-Stays user)

  user_unless-Stays :
      (unprotected : Bool) (user : Bytes) → Leaves (Stays P) (user_unless env unprotected user)
  user_unless-Stays true user = record { at = λ s h. h }
  user_unless-Stays false user = record { at = λ s. (user_tls-Stays _ user).at s }

  user_verified-Stays :
      (user : Bytes) (e : Option Error) → Leaves (Stays P) (user_verified env user e)
  user_verified-Stays user none = record { at = λ s. (user_unless-Stays _ user).at s }
  user_verified-Stays user (some e) = record { at = λ s h. h }

  user_from-Stays : (own : Bool) (user : Bytes) → Leaves (Stays P) (user_from env own user)
  user_from-Stays false user = record { at = λ s. (user_unless-Stays _ user).at s }
  user_from-Stays true user =
      bind-Leaves (Stays P) (Stays-IsFrame P) (callback env (env.main.pre_auth_user user))
        (user_verified env user)
        (callback-Stays (env.main.pre_auth_user user) (tame.pre_auth_user_tame user))
        (user_verified-Stays user)

  pub handle_user-Stays : (param : Bytes) → Leaves (Stays P) (handle_user env param)
  unfolding handle_user
  handle_user-Stays param = user_from-Stays env.main.has_user_verifier param

  post_auth-Stays :
      (own : Bool) (user : Bytes) (e : Option Error) → Leaves (Stays P) (post_auth env own user e)
  post_auth-Stays false user e = record { at = λ s h. h }
  post_auth-Stays true user e =
      callback-Stays (env.main.post_auth_message user e) (tame.post_auth_message_tame user e)

  pass_reply-Stays :
      (driver : Option ℕ) (e : Option Error) (text : Bytes)
      → Leaves (Stays P) (pass_reply env driver e text)
  pass_reply-Stays none none text = record { at = λ s h. h }
  pass_reply-Stays (some driver) none text = record { at = λ s h. h }
  pass_reply-Stays driver (some e) text = record { at = λ s h. h }

  authenticated-Stays :
      (user : Bytes) (r : Option ℕ × Option Error) → Leaves (Stays P) (authenticated env user r)
  authenticated-Stays user r = record {
    at = λ s.
        (bind-Leaves (Stays P) (Stays-IsFrame P)
            (post_auth env env.main.has_post_auth_message user r.1) (pass_reply env r.0 r.1)
            (post_auth-Stays _ user r.1) (pass_reply-Stays r.0 r.1)).at
          (record s { client = record (s.client) { driver = r.0 } });
  }

  pub handle_pass-Stays : (param : Bytes) → Leaves (Stays P) (handle_pass env param)
  unfolding handle_pass
  handle_pass-Stays param = record {
    at = λ s.
        (bind-Leaves (Stays P) (Stays-IsFrame P)
            (callback env (env.main.auth_user s.client.user param))
            (authenticated env s.client.user)
            (callback-Stays (env.main.auth_user s.client.user param)
              (tame.auth_user_tame s.client.user param))
            (authenticated-Stays s.client.user)).at
          s;
  }
