-- ===== src/Common/ProxyProtocol/RoundTrip.antt =====
-- A header line as the proxy writes it is read back.
use wardnet_cloud.Prelude.{
  ℕ, ◌+◌, ◌<◌, ◌≡◌, refl, Bool, true, false, not, ◌&&◌, ◌==◌, ltb, [], ◌∷◌, ◌++◌, Option, some,
  arith, length,
}
use wardnet_cloud.Prelude.Text.{Str, codes, same, split, extend}
use wardnet_cloud.Prelude.{length-append, append_assoc}
use wardnet_cloud.Prelude.Bytes.{is_utf8}
use wardnet_cloud.Common.ProxyProtocol.{
  crlf, max_header_len, ends_with_crlf, read_line, strip_crlf, parse_v1, read_required, parse_parts,
  after_signature, source,
}

-- No byte of a text is the separator.
unfoldable pub without : ℕ → Str → Bool
without sep [] = true
without sep (c ∷ s) = not (c == sep) && without sep s

ends_with_crlf-without : (s : Str) → without 13 s ≡ true → ends_with_crlf s ≡ false
unfolding without ends_with_crlf same
ends_with_crlf-without [] e = refl
ends_with_crlf-without (c ∷ s) e = ground (arith, ends_with_crlf-without s)

-- A line that has come to its carriage return, and one that has come to its end.
ends_with_crlf-open : (s : Str) → without 13 s ≡ true → ends_with_crlf (s ++ 13 ∷ []) ≡ false
unfolding without ends_with_crlf same
ends_with_crlf-open [] e = refl
ends_with_crlf-open (c ∷ s) e = ground (arith, ends_with_crlf-open s)

ends_with_crlf-closed : (s : Str) → ends_with_crlf (s ++ crlf) ≡ true
unfolding ends_with_crlf same
ends_with_crlf-closed [] = refl
ends_with_crlf-closed (c ∷ s) = ground (arith, ends_with_crlf-closed s)

strip_crlf-append : (s : Str) → without 13 s ≡ true → strip_crlf (s ++ crlf) ≡ some s
unfolding without strip_crlf same
strip_crlf-append [] e = refl
strip_crlf-append (c ∷ s) e = ground (arith, strip_crlf-append s)

split-append :
    (sep : ℕ) (part rest : Str)
    → without sep part ≡ true
    → split sep (part ++ sep ∷ rest) ≡ part ∷ split sep rest
unfolding without split extend
split-append sep [] rest e = ground arith
split-append sep (c ∷ part) rest e =
    let other : (c == sep) ≡ false = ground arith in
    let more = split-append sep part rest (ground arith) in rw (other, more) refl

without-append :
    (sep : ℕ) (s t : Str)
    → without sep s ≡ true
    → without sep t ≡ true
    → without sep (s ++ t) ≡ true
unfolding without
without-append sep [] t e f = f
without-append sep (c ∷ s) t e f = ground (arith, without-append sep s t)

read_line_lem :
    (line s rest : Str)
    → without 13 line ≡ true
    → without 13 s ≡ true
    → length line + length s < max_header_len
    → read_line line (s ++ crlf ++ rest) ≡ some (line ++ (s ++ crlf), rest)
unfolding read_line without
read_line_lem line [] rest clean none_here short =
    let unended = ends_with_crlf-open line clean in
    let fits : ltb max_header_len (length (line ++ 13 ∷ [])) ≡ false =
      ground (arith, short, length-append line (13 ∷ [])) in
    let closed : ends_with_crlf ((line ++ 13 ∷ []) ++ 10 ∷ []) ≡ true =
      rw (append_assoc line (13 ∷ []) (10 ∷ [])) (ends_with_crlf-closed line) in
    rw (unended, fits, closed, append_assoc line (13 ∷ []) (10 ∷ [])) refl
read_line_lem line (c ∷ s) rest clean more short =
    let clean' = without-append 13 line (c ∷ []) clean (ground (arith, more)) in
    let unended = ends_with_crlf-without (line ++ c ∷ []) clean' in
    let fits : ltb max_header_len (length (line ++ c ∷ [])) ≡ false =
      ground (arith, short, length-append line (c ∷ [])) in
    let next =
      read_line_lem (line ++ c ∷ []) s rest clean' (ground (arith, more))
        (omega (arith, short, length-append line (c ∷ []))) in
    rw (unended, fits, next, append_assoc line (c ∷ []) (s ++ crlf)) refl

module _ {Ip : Type 0} (parse_ip : Str → Option Ip) (parse_u16 : Str → Option ℕ) where
  -- PROXY, the family, the two addresses and the two ports.
  abbrev pub header_text : Str → Str → Str → Str → Str → Str
  header_text family src dst sport dport =
      codes "PROXY"
      ++ b' ' ∷ (family ++ b' ' ∷ (src ++ b' ' ∷ (dst ++ b' ' ∷ (sport ++ b' ' ∷ dport))))

  -- A header line of at most 108 bytes for an IPv4 connection, whose fields have no space and no
  -- carriage return, gives the source address and port, and leaves exactly the bytes that follow it in
  -- the stream, whatever these are.
  pub read_required-header :
      (src dst sport dport payload : Str) (ip : Ip) (port : ℕ)
      → without b' ' src ≡ true
      → without b' ' dst ≡ true
      → without b' ' sport ≡ true
      → without 13 (header_text (codes "TCP4") src dst sport dport) ≡ true
      → length (header_text (codes "TCP4") src dst sport dport) < max_header_len
      → is_utf8 (header_text (codes "TCP4") src dst sport dport) ≡ true
      → parse_ip src ≡ some ip
      → parse_u16 sport ≡ some port
      → read_required parse_ip parse_u16
          (header_text (codes "TCP4") src dst sport dport ++ crlf ++ payload)
        ≡ some (some (ip, port), payload)
  unfolding read_required parse_v1 parse_parts after_signature source same without
  read_required-header src dst sport dport payload ip port no_src no_dst no_sport clean short utf8
        parsed ported =
      let h = header_text (codes "TCP4") src dst sport dport in
      let line = read_line_lem [] h payload refl clean (omega (arith, short)) in
      let parts : split b' ' h
          ≡ codes "PROXY" ∷ codes "TCP4" ∷ src ∷ dst ∷ sport ∷ split b' ' dport =
        rw
          (
            split-append b' ' (codes "PROXY")
                (codes "TCP4" ++ b' ' ∷ (src ++ b' ' ∷ (dst ++ b' ' ∷ (sport ++ b' ' ∷ dport))))
                refl,
            split-append b' ' (codes "TCP4") (src ++ b' ' ∷ (dst ++ b' ' ∷ (sport ++ b' ' ∷ dport)))
                refl,
            split-append b' ' src (dst ++ b' ' ∷ (sport ++ b' ' ∷ dport)) no_src,
            split-append b' ' dst (sport ++ b' ' ∷ dport) no_dst,
            split-append b' ' sport dport no_sport,
          )
          refl in
      rw (line, strip_crlf-append h clean, utf8, parts, parsed, ported) refl
