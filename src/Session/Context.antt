-- ===== src/Session/Context.antt =====
-- What a driver can change through the ClientContext, and what it cannot.
use ftpserverlib.Prelude.{
  Bool, true, false, List, [], ◌∷◌, ◌∙◌, ◌≡◌, refl, arith, inl, inr, Option-cases,
}
use ftpserverlib.Session.Types.{
  clear_or_encrypted, mandatory_encryption, implicit_encryption, other_requirement,
}
use ftpserverlib.Session.Driver.{
  ContextCall, set_path, set_list_path, set_debug, set_tls_requirement, close_connection, Env,
}
use ftpserverlib.Session.State.{Client, close_client, apply_context, with_tls_requirement}

-- The fields that no call of the context reaches.
abbrev pub Kept : Client → Client → Type 0
Kept c c' =
    (c'.user ≡ c.user)
    × (c'.driver ≡ c.driver)
    × (c'.control_tls ≡ c.control_tls)
    × (c'.transfer_tls ≡ c.transfer_tls)
    × (c'.has_reader ≡ c.has_reader)
    × (c'.ctx_rest ≡ c.ctx_rest)

-- Whether one of the calls is Close.
unfoldable pub asks_close : List ContextCall → Bool
asks_close [] = false
asks_close (close_connection ∷ calls) = true
asks_close (_ ∷ calls) = asks_close calls

module _ {W : Type 0} (env : Env W) where
  pub close_client-Kept :
      (c : Client) (w : W)
      → Kept c (close_client env c w).0 × ((close_client env c w).0.path ≡ c.path)
  unfolding close_client
  close_client-Kept c w = elim (Option-cases c.transfer) [
    | inl nothing ↦ ground arith
    | inr (t, is) ↦ ground arith
  ]

  pub apply_context-Kept :
      (calls : List ContextCall) (c : Client) (w : W) → Kept c (apply_context env calls c w).0
  unfolding apply_context
  apply_context-Kept [] c w = (refl, refl, refl, refl, refl, refl)
  apply_context-Kept (set_path p ∷ calls) c w = apply_context-Kept calls (record c { path = p }) w
  apply_context-Kept (set_list_path p ∷ calls) c w =
      apply_context-Kept calls (record c { list_path = p }) w
  apply_context-Kept (set_debug b ∷ calls) c w = apply_context-Kept calls (record c { debug = b }) w
  apply_context-Kept (set_tls_requirement clear_or_encrypted ∷ calls) c w =
      apply_context-Kept calls (with_tls_requirement clear_or_encrypted c) w
  apply_context-Kept (set_tls_requirement mandatory_encryption ∷ calls) c w =
      apply_context-Kept calls (with_tls_requirement mandatory_encryption c) w
  apply_context-Kept (set_tls_requirement implicit_encryption ∷ calls) c w =
      apply_context-Kept calls c w
  apply_context-Kept (set_tls_requirement (other_requirement n) ∷ calls) c w =
      apply_context-Kept calls c w
  apply_context-Kept (close_connection ∷ calls) c w =
      let (c', w') = close_client env c w in
      let (first, same_path) = close_client-Kept c w in
      let later = apply_context-Kept calls c' w' in
      (
        later.0 ∙ first.0,
        later.1 ∙ first.1,
        later.2 ∙ first.2,
        later.3 ∙ first.3,
        later.4 ∙ first.4,
        later.5 ∙ first.5,
      )

  -- What else stays where Close is not called.
  pub apply_context-open :
      (calls : List ContextCall) (c : Client) (w : W)
      → asks_close calls ≡ false
      → ((apply_context env calls c w).0.is_transfer_aborted ≡ c.is_transfer_aborted)
        × ((apply_context env calls c w).0.closed ≡ c.closed)
  unfolding apply_context asks_close
  apply_context-open [] c w h = (refl, refl)
  apply_context-open (set_path p ∷ calls) c w h =
      apply_context-open calls (record c { path = p }) w h
  apply_context-open (set_list_path p ∷ calls) c w h =
      apply_context-open calls (record c { list_path = p }) w h
  apply_context-open (set_debug b ∷ calls) c w h =
      apply_context-open calls (record c { debug = b }) w h
  apply_context-open (set_tls_requirement clear_or_encrypted ∷ calls) c w h =
      apply_context-open calls (with_tls_requirement clear_or_encrypted c) w h
  apply_context-open (set_tls_requirement mandatory_encryption ∷ calls) c w h =
      apply_context-open calls (with_tls_requirement mandatory_encryption c) w h
  apply_context-open (set_tls_requirement implicit_encryption ∷ calls) c w h =
      apply_context-open calls c w h
  apply_context-open (set_tls_requirement (other_requirement n) ∷ calls) c w h =
      apply_context-open calls c w h
  apply_context-open (close_connection ∷ calls) c w h = absurd (ground arith)
