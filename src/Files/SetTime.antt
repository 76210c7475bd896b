-- ===== src/Files/SetTime.antt =====
-- MFMT with the time that MDTM answers.
use ftpserverlib.Prelude.{
  ℕ, ◌<◌, true, ◌∷◌, ◌++◌, Option, none, some, ◌≡◌, arith, Option-cases, inl, inr,
}
use ftpserverlib.Text.{Bytes}
use ftpserverlib.Text.Split.{split_n-append}
use ftpserverlib.Paths.{abs_path}
use ftpserverlib.Errors.{Error}
use ftpserverlib.Session.{Env, Session, FileInfo, Civil, ok, done, message, reply_codes}
use ftpserverlib.Dirs.{format_mlsd}
use ftpserverlib.Files.Meta.{handle_mdtm, handle_mfmt}
use ftpserverlib.Files.Meta.Time.{in_range}
use ftpserverlib.Files.Meta.TimeTrip.{format_mlsd-Free, parse_time-format_mlsd}

module _ {W : Type 0} (env : Env W) where
  -- the code of the reply to MFMT
  abbrev mfmt_code : Option Error → ℕ
  mfmt_code none = 213
  mfmt_code (some e) = 550

  handle_mfmt-format_mlsd :
      (t : Civil) (name : Bytes) (n : ℕ) (s : Session W)
      → s.client.driver ≡ some n
      → in_range t ≡ true
      → t.year < 10000
      → let at = record t { nanosecond = 0 } in
        let (e, w) = (env.main.driver n).chtimes (abs_path s.client.path name) at at s.world in
        let (r, s') = handle_mfmt env (format_mlsd t ++ (b' ' ∷ name)) s in
        (r ≡ done none)
        × (s'.world ≡ w)
        × (s'.client ≡ s.client)
        × (reply_codes s'.log ≡ mfmt_code e ∷ reply_codes s.log)
  unfolding handle_mfmt
  handle_mfmt-format_mlsd t name n s d r y =
      let split = split_n-append b' ' (format_mlsd t) name (format_mlsd-Free t r y) in
      let parsed = parse_time-format_mlsd t r y in
      rw (split, parsed)
        (elim (Option-cases
          ((env.main.driver n).chtimes (abs_path s.client.path name) (record t { nanosecond = 0 })
            (record t { nanosecond = 0 }) s.world).0) [
              | inl set ↦ ground arith
              | inr (e, failed) ↦ ground arith
            ])

  handle_mdtm-format_mlsd :
      (param : Bytes) (n : ℕ) (info : FileInfo) (s : Session W) (w : W)
      → s.client.driver ≡ some n
      → (env.main.driver n).stat (abs_path s.client.path param) s.world ≡ (ok info, w)
      → handle_mdtm env param s ≡ (
        done none,
        record s { world = w; log = message 213 (format_mlsd info.mod_time.utc) ∷ s.log },
      )
  unfolding handle_mdtm
  handle_mdtm-format_mlsd param n info s w d found = ground arith

  -- A client that sends the text of MDTM's answer 213 back by MFMT, for whatever name, has the
  -- driver set just the time of the file that it asked about, without the fraction of a second, on
  -- the file that the name resolves to; the answer is 213, or 550 if the driver fails. The file has a valid
  -- time before the year 10000.
  pub handle_mfmt-handle_mdtm :
      (param name text : Bytes) (n : ℕ) (info : FileInfo) (s : Session W) (w : W)
      → s.client.driver ≡ some n
      → (env.main.driver n).stat (abs_path s.client.path param) s.world ≡ (ok info, w)
      → in_range info.mod_time.utc ≡ true
      → info.mod_time.utc.year < 10000
      → (handle_mdtm env param s).1.log ≡ message 213 text ∷ s.log
      → let s1 = (handle_mdtm env param s).1 in
        let at = record (info.mod_time.utc) { nanosecond = 0 } in
        let (e, w') = (env.main.driver n).chtimes (abs_path s.client.path name) at at w in
        let (r, s2) = handle_mfmt env (text ++ (b' ' ∷ name)) s1 in
        (r ≡ done none)
        × (s2.world ≡ w')
        × (s2.client ≡ s.client)
        × (reply_codes s2.log ≡ mfmt_code e ∷ reply_codes s1.log)
  handle_mfmt-handle_mdtm param name text n info s w d found r y answer =
      let is = handle_mdtm-format_mlsd param n info s w d found in
      let t = info.mod_time.utc in
      let s1 = record s { world = w; log = message 213 (format_mlsd t) ∷ s.log } in
      let texts : text ≡ format_mlsd t = cc in
      rw (is, texts) (handle_mfmt-format_mlsd t name n s1 d r y)
