-- ===== src/Session/Tame.antt =====
-- Drivers that move a client only to directories of a kind.
use mathlib.Core.Path.{subst}
use ftpserverlib.Prelude.{ℕ, List, [], ◌∷◌, Option, ◌≡◌, refl, sym, ◌∙◌, All}
use ftpserverlib.Text.{Bytes}
use ftpserverlib.Errors.{Error}
use ftpserverlib.Session.Driver.{
  ContextCall, set_path, set_list_path, set_debug, set_tls_requirement, close_connection, Callback,
  Env,
}
use ftpserverlib.Session.Context.{apply_context-Kept, close_client-Kept}
use ftpserverlib.Session.State.{Client, close_client, apply_context, with_tls_requirement}
use ftpserverlib.Session.Types.{
  clear_or_encrypted, mandatory_encryption, implicit_encryption, other_requirement,
}
use ftpserverlib.Session.Monad.{M, callback}
use ftpserverlib.Session.Leaves.{IsFrame, Leaves, Same}

module _ (P : Bytes → Type 0) where
  abbrev Obeys : ContextCall → Type 0
  Obeys (set_path p) = P p
  Obeys (set_list_path p) = Unit
  Obeys (set_debug b) = Unit
  Obeys (set_tls_requirement r) = Unit
  Obeys close_connection = Unit

  -- The paths that a call sets are of the kind.
  abbrev pub Tame : {W A : Type 0} → Callback W A → Type 0
  Tame {W} f = (w : W) → All Obeys (f w).1

  -- Every call of the drivers that is given the ClientContext.
  pub record IsTame {W : Type 0} (env : Env W) : Type 0 where
    pub client_disconnected_tame : Tame env.main.client_disconnected
    pub client_connected_tame : Tame env.main.client_connected
    pub auth_user_tame : (user pass : Bytes) → Tame (env.main.auth_user user pass)
    pub verify_connection_tame : (user : Bytes) → Tame (env.main.verify_connection user)
    pub pre_auth_user_tame : (user : Bytes) → Tame (env.main.pre_auth_user user)
    pub post_auth_message_tame :
        (user : Bytes) (e : Option Error) → Tame (env.main.post_auth_message user e)
    pub public_ip_resolver_tame : Tame env.main.public_ip_resolver
    pub read_dir_tame : (n : ℕ) (path : Bytes) → Tame ((env.main.driver n).read_dir path)

  -- The working directory stays of the kind.
  abbrev pub Stays : Client → Client → Type 0
  Stays c c' = P c.path → P c'.path

  -- The driver and the user stay as well.
  abbrev pub Framed : Client → Client → Type 0
  Framed c c' = (c'.driver ≡ c.driver) × (c'.user ≡ c.user) × Stays c c'

  pub Stays-IsFrame : IsFrame Stays
  Stays-IsFrame = record { none_changed = λ c h. h; in_turn = λ c c' c'' f g h. g (f h) }

  pub Framed-IsFrame : IsFrame Framed
  Framed-IsFrame = record {
    none_changed = λ c. (refl, refl, λ h. h);
    in_turn = λ c c' c'' (d, u, f) (d', u', f'). (d' ∙ d, u' ∙ u, λ h. f' (f h));
  }

  pub Same-Framed : {W A : Type 0} (m : M W A) → Leaves Same m → Leaves Framed m
  Same-Framed m same = record {
    at = λ s. let (d, u, p) = same.at s in (d, u, λ h. subst P (sym p) h);
  }

  module _ {W : Type 0} (env : Env W) where
    apply_context-Stays :
        (calls : List ContextCall) (c : Client) (w : W)
        → All Obeys calls
        → Stays c (apply_context env calls c w).0
    unfolding apply_context
    apply_context-Stays [] c w o h = h
    apply_context-Stays (set_path p ∷ calls) c w (here, o) h =
        apply_context-Stays calls (record c { path = p }) w o here
    apply_context-Stays (set_list_path p ∷ calls) c w (here, o) h =
        apply_context-Stays calls (record c { list_path = p }) w o h
    apply_context-Stays (set_debug b ∷ calls) c w (here, o) h =
        apply_context-Stays calls (record c { debug = b }) w o h
    apply_context-Stays (set_tls_requirement clear_or_encrypted ∷ calls) c w (here, o) h =
        apply_context-Stays calls (with_tls_requirement clear_or_encrypted c) w o h
    apply_context-Stays (set_tls_requirement mandatory_encryption ∷ calls) c w (here, o) h =
        apply_context-Stays calls (with_tls_requirement mandatory_encryption c) w o h
    apply_context-Stays (set_tls_requirement implicit_encryption ∷ calls) c w (here, o) h =
        apply_context-Stays calls c w o h
    apply_context-Stays (set_tls_requirement (other_requirement n) ∷ calls) c w (here, o) h =
        apply_context-Stays calls c w o h
    apply_context-Stays (close_connection ∷ calls) c w (here, o) h =
        let (c', w') = close_client env c w in
        apply_context-Stays calls c' w' o (subst P (sym (close_client-Kept env c w).1) h)

    pub callback-Framed : {A : Type 0} (f : Callback W A) → Tame f → Leaves Framed (callback env f)
    callback-Framed f tame = record {
      at = λ s.
          let (a, calls, w) = f s.world in
          let kept = apply_context-Kept env calls s.client w in
          (kept.1, kept.0, apply_context-Stays calls s.client w (tame s.world));
    }

-- Of any kind at all.
abbrev pub Anywhere : Bytes → Type 0
Anywhere p = Unit

Obeys-Anywhere : (calls : List ContextCall) → All (Obeys Anywhere) calls
Obeys-Anywhere [] = tt
Obeys-Anywhere (set_path p ∷ calls) = (tt, Obeys-Anywhere calls)
Obeys-Anywhere (set_list_path p ∷ calls) = (tt, Obeys-Anywhere calls)
Obeys-Anywhere (set_debug b ∷ calls) = (tt, Obeys-Anywhere calls)
Obeys-Anywhere (set_tls_requirement r ∷ calls) = (tt, Obeys-Anywhere calls)
Obeys-Anywhere (close_connection ∷ calls) = (tt, Obeys-Anywhere calls)

pub IsTame-Anywhere : {W : Type 0} (env : Env W) → IsTame Anywhere env
IsTame-Anywhere env = record {
  client_disconnected_tame = λ w. Obeys-Anywhere _;
  client_connected_tame = λ w. Obeys-Anywhere _;
  auth_user_tame = λ user pass w. Obeys-Anywhere _;
  verify_connection_tame = λ user w. Obeys-Anywhere _;
  pre_auth_user_tame = λ user w. Obeys-Anywhere _;
  post_auth_message_tame = λ user e w. Obeys-Anywhere _;
  public_ip_resolver_tame = λ w. Obeys-Anywhere _;
  read_dir_tame = λ n path w. Obeys-Anywhere _;
}
