-- ===== src/Echo/Packet/Parse.antt =====
-- Reading back the datagrams that the programs build.
use eltex_school.Base.{
  ℕ, suc, zero, ◌+◌, ◌%◌, ◌^◌, ◌≤◌, ◌<◌, ◌≡◌, ◌≢◌, refl, some, List, [], ◌∷◌, ◌++◌, arith, length,
  drop, take, ap,
}
use eltex_school.Echo.Packet.{byte, field16, field32, read_text, ip_header, udp_header, datagram}

-- A buffer whose bytes are the headers of such a datagram, and its content, with anything behind.
pub record Parsed (saddr daddr source dest : ℕ) (content rest buf : List ℕ) : Type 0 where
  pub words : byte buf 0 % 16 ≡ 5
  pub protocol : byte buf 9 ≡ 17
  pub saddr_read : field32 buf 12 ≡ saddr
  pub daddr_read : field32 buf 16 ≡ daddr
  pub source_read : field16 buf 20 ≡ source
  pub dest_read : field16 buf 22 ≡ dest
  pub len_read : field16 buf 24 ≡ 8 + length content
  pub content_read : drop 28 buf ≡ content ++ rest

pub datagram-Parsed :
    (id saddr daddr source dest : ℕ) (content rest : List ℕ)
    → saddr < 2 ^ 32
    → daddr < 2 ^ 32
    → source < 2 ^ 16
    → dest < 2 ^ 16
    → 8 + length content < 2 ^ 16
    → Parsed saddr daddr source dest content rest
        (datagram id saddr daddr source dest content ++ rest)
unfolding datagram ip_header udp_header
datagram-Parsed id saddr daddr source dest content rest hs hd hp hq hl = record {
  words = refl;
  protocol = refl;
  saddr_read = omega arith;
  daddr_read = omega arith;
  source_read = omega arith;
  dest_read = omega arith;
  len_read = omega arith;
  content_read = refl;
}

pub length-datagram :
    (id saddr daddr source dest : ℕ) (content : List ℕ)
    → length (datagram id saddr daddr source dest content) ≡ 28 + length content
unfolding datagram ip_header udp_header
length-datagram id saddr daddr source dest content = omega arith

pub take-all {ℓ} : {A : Type ℓ} (n : ℕ) (xs : List A) → length xs ≤ n → take n xs ≡ xs
take-all zero [] h = refl
take-all zero (x ∷ xs) h = absurd (omega arith)
take-all (suc n) [] h = refl
take-all (suc n) (x ∷ xs) h = ap (◌∷◌ x) (take-all n xs (omega arith))

-- No byte is a NUL.
abbrev pub NoNul : List ℕ → Type 0
NoNul [] = Unit {0}
NoNul (c ∷ s) = (c ≢ 0) × NoNul s

pub read_text-append : (s rest : List ℕ) → NoNul s → read_text (length s) (s ++ rest) ≡ some s
unfolding read_text
read_text-append [] rest h = refl
read_text-append (c ∷ s) rest (h, hs) = rw (read_text-append s rest hs) (ground arith)
