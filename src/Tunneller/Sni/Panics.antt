-- ===== src/Tunneller/Sni/Panics.antt =====
-- `parse_sni` on any bytes: no read out of range, and the loop ends.
use wardnet_cloud.Prelude.{
  ℕ, zero, suc, ◌+◌, ◌≤◌, ◌≡◌, refl, false, ◌==◌, leb, ltb, List, Option, none, some, arith,
  Bool-cases, inl, inr, length, if◌then◌else◌,
}
use wardnet_cloud.Prelude.Bytes.{get-in_range, u16-in_range, u24-in_range, slice-in_range, is_utf8}
use wardnet_cloud.Prelude.Text.{Str}
use wardnet_cloud.Tunneller.Sni.{
  Parsed, server_name, extensions, extensions_of, compression_methods, cipher_suites, client_hello,
  handshake, parse_sni,
}

abbrev pub Ends : Parsed → Type 0
Ends m = (r : Option Str) × (m ≡ some r)

server_name-Ends : (sni_data : List ℕ) → Ends (server_name sni_data)
unfolding server_name
server_name-Ends sni_data = elim (Bool-cases (ltb (length sni_data) 5)) [
  | inl short ↦ rw short (none, refl)
  | inr fits ↦
      let (t, et) = get-in_range sni_data 2 (ground arith) in
      rw (fits, et)
        (elim (Bool-cases (t == 0)) [
          | inr other ↦ rw other (none, refl)
          | inl host ↦
              let (n, en) = u16-in_range sni_data 3 (ground arith) in
              rw (host, en)
                (elim (Bool-cases (ltb (length sni_data) (5 + n))) [
                  | inl short ↦ rw short (none, refl)
                  | inr fits ↦
                      let (name, e, len) =
                        slice-in_range 5 (5 + n) sni_data (omega arith) (ground arith) in
                      rw (fits, e) ((if is_utf8 name then some name else none), refl)
                ])
        ])
]

extensions-Ends :
    (fuel i : ℕ) (exts : List ℕ) → length exts ≤ i + fuel → Ends (extensions fuel i exts)
unfolding extensions
extensions-Ends zero i exts h = rw (at_end i (length exts) h) (none, refl)
  where
    at_end : (i n : ℕ) → n ≤ i + 0 → leb (i + 4) n ≡ false
    at_end i n h = ground arith
extensions-Ends (suc fuel) i exts h = elim (Bool-cases (leb (i + 4) (length exts))) [
  | inr done ↦ rw done (none, refl)
  | inl more ↦
      let (t, et) = u16-in_range exts i (ground arith) in
      let (n, en) = u16-in_range exts (i + 2) (ground arith) in
      rw (more, et, en)
        (elim (Bool-cases (ltb (length exts) (i + 4 + n))) [
          | inl short ↦ rw short (none, refl)
          | inr fits ↦ rw fits (elim (Bool-cases (t == 0)) [
            | inl sni ↦
                let (data_, e, len) =
                  slice-in_range (i + 4) (i + 4 + n) exts (omega arith) (ground arith) in
                rw (sni, e) (server_name-Ends data_)
            | inr other ↦ rw other (extensions-Ends fuel (i + 4 + n) exts (omega arith))
          ])
        ])
]

extensions_of-Ends : (pos : ℕ) (hello : List ℕ) → Ends (extensions_of pos hello)
unfolding extensions_of
extensions_of-Ends pos hello = elim (Bool-cases (ltb (length hello) (pos + 2))) [
  | inl short ↦ rw short (none, refl)
  | inr fits ↦
      let (n, en) = u16-in_range hello pos (ground arith) in
      rw (fits, en)
        (elim (Bool-cases (ltb (length hello) (pos + 2 + n))) [
          | inl short ↦ rw short (none, refl)
          | inr fits ↦
              let (exts, e, len) =
                slice-in_range (pos + 2) (pos + 2 + n) hello (omega arith) (ground arith) in
              rw (fits, e) (extensions-Ends (length exts) 0 exts (omega arith))
        ])
]

compression_methods-Ends : (pos : ℕ) (hello : List ℕ) → Ends (compression_methods pos hello)
unfolding compression_methods
compression_methods-Ends pos hello = elim (Bool-cases (ltb (length hello) (pos + 1))) [
  | inl short ↦ rw short (none, refl)
  | inr fits ↦
      let (n, en) = get-in_range hello pos (ground arith) in
      rw (fits, en) (extensions_of-Ends (pos + (1 + n)) hello)
]

cipher_suites-Ends : (pos : ℕ) (hello : List ℕ) → Ends (cipher_suites pos hello)
unfolding cipher_suites
cipher_suites-Ends pos hello = elim (Bool-cases (ltb (length hello) (pos + 2))) [
  | inl short ↦ rw short (none, refl)
  | inr fits ↦
      let (n, en) = u16-in_range hello pos (ground arith) in
      rw (fits, en) (compression_methods-Ends (pos + (2 + n)) hello)
]

client_hello-Ends : (hello : List ℕ) → Ends (client_hello hello)
unfolding client_hello
client_hello-Ends hello = elim (Bool-cases (ltb (length hello) 35)) [
  | inl short ↦ rw short (none, refl)
  | inr fits ↦
      let (n, en) = get-in_range hello 34 (ground arith) in
      rw (fits, en) (cipher_suites-Ends (35 + n) hello)
]

handshake-Ends : (hs : List ℕ) → Ends (handshake hs)
unfolding handshake
handshake-Ends hs = elim (Bool-cases (ltb (length hs) 4)) [
  | inl short ↦ rw short (none, refl)
  | inr fits ↦
      let (t, et) = get-in_range hs 0 (ground arith) in
      rw (fits, et)
        (elim (Bool-cases (t == 1)) [
          | inr other ↦ rw other (none, refl)
          | inl hello ↦
              let (n, en) = u24-in_range hs 1 (ground arith) in
              rw (hello, en)
                (elim (Bool-cases (ltb (length hs) (4 + n))) [
                  | inl short ↦ rw short (none, refl)
                  | inr fits ↦
                      let (body, e, len) =
                        slice-in_range 4 (4 + n) hs (omega arith) (ground arith) in
                      rw (fits, e) (client_hello-Ends body)
                ])
        ])
]

-- Whatever bytes a client sends, the parser answers: no index and no slice is out of range, and the
-- loop over the extensions ends within as many rounds as there are bytes.
pub parse_sni_never_panics : (buf : List ℕ) → Ends (parse_sni buf)
unfolding parse_sni
parse_sni_never_panics buf = elim (Bool-cases (ltb (length buf) 5)) [
  | inl short ↦ rw short (none, refl)
  | inr fits ↦
      let (t, et) = get-in_range buf 0 (ground arith) in
      rw (fits, et)
        (elim (Bool-cases (t == 22)) [
          | inr other ↦ rw other (none, refl)
          | inl record_ ↦
              let (n, en) = u16-in_range buf 3 (ground arith) in
              rw (record_, en)
                (elim (Bool-cases (ltb (length buf) (5 + n))) [
                  | inl short ↦ rw short (none, refl)
                  | inr fits ↦
                      let (hs, e, len) =
                        slice-in_range 5 (5 + n) buf (omega arith) (ground arith) in
                      rw (fits, e) (handshake-Ends hs)
                ])
        ])
]
