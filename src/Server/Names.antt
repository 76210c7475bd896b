-- ===== src/Server/Names.antt =====
-- What a client may ask for, by the names that it sends: a description of commandsMap that does not
-- look at it.
use mathlib.Core.Path.{subst}
use ftpserverlib.Prelude.{
  Bool, true, false, not, ◌&&◌, ◌||◌, List, [], ◌∷◌, Option, none, some, ◌≡◌, refl, sym, ◌⊎◌, inl,
  inr, arith, if◌then◌else◌, Bool-cases, Option-cases,
}
use ftpserverlib.Text.{Bytes, codes, equal, has_suffix}
use ftpserverlib.Text.Compare.{equal_iff}
use ftpserverlib.Server.Commands.{CommandDescription, commands_map, find_command}
use ftpserverlib.Server.Dispatch.{lookup_command, find_special}

unfoldable pub is_one_of : Bytes → List Bytes → Bool
is_one_of name [] = false
is_one_of name (n ∷ names) = equal name n || is_one_of name names

-- The commands for which no login is needed.
unfoldable pub open_names : List Bytes
open_names =
    codes "USER"
    ∷ codes "PASS"
    ∷ codes "AUTH"
    ∷ codes "PROT"
    ∷ codes "PBSZ"
    ∷ codes "CLNT"
    ∷ codes "FEAT"
    ∷ codes "SYST"
    ∷ codes "NOOP"
    ∷ codes "OPTS"
    ∷ codes "QUIT"
    ∷ []

-- The other commands that the server knows.
unfoldable pub closed_names : List Bytes
closed_names =
    codes "ACCT"
    ∷ codes "ADAT"
    ∷ codes "CCC"
    ∷ codes "CONF"
    ∷ codes "ENC"
    ∷ codes "MIC"
    ∷ codes "AVBL"
    ∷ codes "ABOR"
    ∷ codes "CSID"
    ∷ codes "HELP"
    ∷ codes "HOST"
    ∷ codes "LANG"
    ∷ codes "XRSQ"
    ∷ codes "XSEM"
    ∷ codes "XSEN"
    ∷ codes "SIZE"
    ∷ codes "DSIZ"
    ∷ codes "STAT"
    ∷ codes "MDTM"
    ∷ codes "MFMT"
    ∷ codes "MFF"
    ∷ codes "MFCT"
    ∷ codes "RETR"
    ∷ codes "STOR"
    ∷ codes "STOU"
    ∷ codes "STRU"
    ∷ codes "APPE"
    ∷ codes "DELE"
    ∷ codes "RNFR"
    ∷ codes "RNTO"
    ∷ codes "ALLO"
    ∷ codes "REST"
    ∷ codes "SITE"
    ∷ codes "HASH"
    ∷ codes "XCRC"
    ∷ codes "MD5"
    ∷ codes "XMD5"
    ∷ codes "XSHA"
    ∷ codes "XSHA1"
    ∷ codes "XSHA256"
    ∷ codes "XSHA512"
    ∷ codes "COMB"
    ∷ codes "THMB"
    ∷ codes "XRCP"
    ∷ codes "CWD"
    ∷ codes "PWD"
    ∷ codes "XCWD"
    ∷ codes "XPWD"
    ∷ codes "CDUP"
    ∷ codes "NLST"
    ∷ codes "LIST"
    ∷ codes "MLSD"
    ∷ codes "MLST"
    ∷ codes "MKD"
    ∷ codes "RMD"
    ∷ codes "RMDA"
    ∷ codes "XMKD"
    ∷ codes "XRMD"
    ∷ codes "SMNT"
    ∷ codes "XCUP"
    ∷ codes "TYPE"
    ∷ codes "MODE"
    ∷ codes "PASV"
    ∷ codes "EPSV"
    ∷ codes "LPSV"
    ∷ codes "SPSV"
    ∷ codes "PORT"
    ∷ codes "LRPT"
    ∷ codes "EPRT"
    ∷ codes "REIN"
    ∷ []

-- Behind the bytes of a telnet signal ABOR, STAT and QUIT are found too.
abbrev pub asks_open : Bytes → Bool
asks_open name = is_one_of name open_names || has_suffix (codes "QUIT") name

abbrev pub asks_closed : Bytes → Bool
asks_closed name =
    is_one_of name closed_names
    || (has_suffix (codes "ABOR") name || has_suffix (codes "STAT") name)

abbrev agrees : Bytes × CommandDescription → Bool
agrees (name, d) = if d.is_open then is_one_of name open_names else is_one_of name closed_names

unfoldable all_agree : List (Bytes × CommandDescription) → Bool
all_agree [] = true
all_agree (entry ∷ entries) = agrees entry && all_agree entries

commands_map-agrees : all_agree commands_map ≡ true
unfolding all_agree commands_map is_one_of equal open_names closed_names
commands_map-agrees = refl

find_command-agrees :
    (name : Bytes) (commands : List (Bytes × CommandDescription)) (d : CommandDescription)
    → all_agree commands ≡ true
    → find_command name commands ≡ some d
    → agrees (name, d) ≡ true
unfolding find_command all_agree
find_command-agrees name [] d t f = ground arith
find_command-agrees name ((key, d') ∷ commands) d t f =
    let rest = find_command-agrees name commands d in
    elim (Bool-cases (equal name key)) [
      | inl y ↦
          let same = (equal_iff name key).0 y in
          let entry : agrees (key, d') ≡ true = ground arith in
          let found : d' ≡ d = ground arith in
          subst (λ k. agrees (k, d) ≡ true) (sym same)
            (subst (λ e. agrees (key, e) ≡ true) found entry)
      | inr n ↦ rest (ground arith) (ground arith)
    ]

-- A command that asks for a login.
abbrev is_shut : Option CommandDescription → Bool
is_shut none = false
is_shut (some d) = not d.is_open

unfoldable all_shut : List Bytes → Bool
all_shut [] = true
all_shut (name ∷ names) = is_shut (find_command name commands_map) && all_shut names

closed_names-all_shut : all_shut closed_names ≡ true
unfolding all_shut find_command commands_map equal closed_names
closed_names-all_shut = refl

is_one_of-is_shut :
    (name : Bytes) (names : List Bytes)
    → all_shut names ≡ true
    → is_one_of name names ≡ true
    → is_shut (find_command name commands_map) ≡ true
unfolding all_shut is_one_of
is_one_of-is_shut name [] a h = ground arith
is_one_of-is_shut name (n ∷ names) a h = elim (Bool-cases (equal name n)) [
  | inl y ↦
      let same = (equal_iff name n).0 y in
      let entry : is_shut (find_command n commands_map) ≡ true = ground arith in
      subst (λ k. is_shut (find_command k commands_map) ≡ true) (sym same) entry
  | inr other ↦ is_one_of-is_shut name names (ground arith) (ground arith)
]

special-is_shut :
    (is_shut (find_command (codes "ABOR") commands_map) ≡ true)
    × (is_shut (find_command (codes "STAT") commands_map) ≡ true)
unfolding find_command commands_map equal
special-is_shut = (refl, refl)

abbrev pub Found : Bytes → Option CommandDescription → Type 0
Found name found =
    ((d : CommandDescription) × (found ≡ some d) × (d.is_open ≡ false) × (asks_closed name ≡ true))
    ⊎ ((found ≡ none) × (asks_closed name ≡ false))

shut-Found :
    (name : Bytes) (found : Option CommandDescription)
    → is_shut found ≡ true
    → asks_closed name ≡ true
    → Found name found
shut-Found name none h c = absurd (ground arith)
shut-Found name (some d) h c = inl (d, refl, ground arith, c)

-- A name that is not open stands for a command that asks for a login, or for none.
pub lookup_command-Found :
    (name : Bytes) → asks_open name ≡ false → Found name (lookup_command name).1
unfolding lookup_command find_special
lookup_command-Found name h = elim (Option-cases (find_command name commands_map)) [
  | inr (d, e) ↦
      let a = find_command-agrees name commands_map d commands_map-agrees e in
      inl (d, ground arith, ground arith, ground arith)
  | inl e ↦
      let no_name = is_one_of-is_shut name closed_names closed_names-all_shut in
      let (abor, stat) = special-is_shut in
      elim (Bool-cases (has_suffix (codes "ABOR") name)) [
        | inl y ↦
            let is : (lookup_command name).1 ≡ find_command (codes "ABOR") commands_map =
              rw (e, y) refl in
            subst (Found name) (sym is) (shut-Found name _ abor (ground arith))
        | inr n ↦ elim (Bool-cases (has_suffix (codes "STAT") name)) [
          | inl y ↦
              let is : (lookup_command name).1 ≡ find_command (codes "STAT") commands_map =
                rw (e, n, y) refl in
              subst (Found name) (sym is) (shut-Found name _ stat (ground arith))
          | inr n' ↦ inr (ground arith, ground arith)
        ]
      ]
]
