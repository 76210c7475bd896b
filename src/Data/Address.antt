-- ===== src/Data/Address.antt =====
-- PASV's announcement against PORT's parser: the same six numbers.
use ftpserverlib.Prelude.{
  ℕ, zero, suc, ◌+◌, ◌-◌, ◌*◌, ◌/◌, ◌<◌, Bool, true, ◌&&◌, List, [], ◌∷◌, ◌++◌, ◌≡◌, refl, ap, inl,
  inr, arith, ltb, append_assoc, Bool-cases,
}
use ftpserverlib.Text.{Bytes, codes, split, join, has_byte}
use ftpserverlib.Text.Split.{Free, split-join}
use ftpserverlib.Text.Decimal.{decimal, digits, parse_int-decimal}
use ftpserverlib.Session.{ok}
use ftpserverlib.Data.Passive.{pasv_text}
use ftpserverlib.Data.Active.{parse_port_addr, is_octet, matches_remote_addr, all_digits}

-- The texts of all numbers below a bound are one to three digits.
octets_below : ℕ → Bool
octets_below zero = true
octets_below (suc n) = is_octet (decimal n) && octets_below n

octets_below-is_octet :
    (bound n : ℕ) → n < bound → octets_below bound ≡ true → is_octet (decimal n) ≡ true
unfolding octets_below
octets_below-is_octet zero n l o = ground arith
octets_below-is_octet (suc bound) n l o = elim (Bool-cases (ltb n bound)) [
  | inl y ↦ let rest = octets_below-is_octet bound n (ground arith) in ground arith
  | inr f ↦ let same : n ≡ bound = ground arith in rw (same) (ground arith)
]

octets_256 : octets_below 256 ≡ true
unfolding octets_below decimal digits
octets_256 = refl

all_digits-Free : (s : Bytes) → all_digits s ≡ true → Free b',' s
unfolding has_byte
all_digits-Free [] h = refl
all_digits-Free (c ∷ s) h = let rest = all_digits-Free s in ground arith

is_octet-Free : (s : Bytes) → is_octet s ≡ true → Free b',' s
is_octet-Free s h = all_digits-Free s (ground arith)

-- The six numbers between the parentheses of PASV's reply.
abbrev six : Bytes → Bytes → Bytes → Bytes → ℕ → List Bytes
six h1 h2 h3 h4 port =
    h1 ∷ h2 ∷ h3 ∷ h4 ∷ decimal (port / 256) ∷ decimal (port - port / 256 * 256) ∷ []

module _ (h1 h2 h3 h4 : Bytes) (o1 : is_octet h1 ≡ true) (o2 : is_octet h2 ≡ true)
    (o3 : is_octet h3 ≡ true) (o4 : is_octet h4 ≡ true) (port : ℕ) (below : port < 65536) where
  high_octet : is_octet (decimal (port / 256)) ≡ true
  high_octet = octets_below-is_octet 256 (port / 256) (omega arith) octets_256

  low_octet : is_octet (decimal (port - port / 256 * 256)) ≡ true
  low_octet = octets_below-is_octet 256 (port - port / 256 * 256) (omega arith) octets_256

  split-six : split b',' (join b',' (six h1 h2 h3 h4 port)) ≡ six h1 h2 h3 h4 port
  split-six =
      split-join b',' h1
        (h2 ∷ h3 ∷ h4 ∷ decimal (port / 256) ∷ decimal (port - port / 256 * 256) ∷ [])
        (
          is_octet-Free h1 o1,
          (
            is_octet-Free h2 o2,
            (
              is_octet-Free h3 o3,
              (is_octet-Free h4 o4, (is_octet-Free _ high_octet, (is_octet-Free _ low_octet, tt))),
            ),
          ),
        )

  six-matches : matches_remote_addr (six h1 h2 h3 h4 port) ≡ true
  unfolding matches_remote_addr
  six-matches = let high = high_octet in let low = low_octet in rw (o1, o2, o3, o4, high, low) refl

  back : port / 256 * 256 + (port - port / 256 * 256) ≡ port
  back = omega arith

  -- PORT's parser reads the six numbers that PASV announces for an address and a port as just
  -- that address and port.
  pub parse_port_addr-pasv_text :
      (pasv_text (h1 ∷ h2 ∷ h3 ∷ h4 ∷ []) port
        ≡ codes "Entering Passive Mode (" ++ (join b',' (six h1 h2 h3 h4 port) ++ codes ")"))
      × (parse_port_addr (join b',' (six h1 h2 h3 h4 port))
          ≡ ok (join b'.' (h1 ∷ h2 ∷ h3 ∷ h4 ∷ []) ++ (b':' ∷ decimal port)))
  unfolding pasv_text parse_port_addr join
  parse_port_addr-pasv_text = (
    simp (append_assoc),
    rw (split-six, six-matches)
        (rw
          (
            parse_int-decimal 64 (port / 256) (omega arith) (omega arith),
            parse_int-decimal 64 (port - port / 256 * 256) (omega arith) (omega arith),
          )
          (ap (λ n. ok (join b'.' (h1 ∷ h2 ∷ h3 ∷ h4 ∷ []) ++ (b':' ∷ decimal n))) back)),
  )
