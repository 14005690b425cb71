-- ===== src/Http/Returns.antt =====
-- The loops of a connection end: each read takes a byte at least.
use mathlib.Core.Path.{subst}
use looka.Common.{
  ℕ, zero, suc, ◌+◌, ◌-◌, ◌<◌, List, [], ◌∷◌, ◌++◌, Option, none, some, Bool, true, false,
  if◌then◌else◌, ltb, leb, length, take, drop, is_empty, ◌≡◌, ◌≢◌, refl, sym, ◌∙◌, arith,
  Bool-cases, inl, inr, length-take, length-drop,
}
use looka.Common.Bytes.{Bytes, codes, find}
use looka.Common.Int.{ℤ, pos, negsuc, ◌-ℤ◌, wrap_int}
use looka.Common.Result.{Result, ok, fault, stuck}
use looka.File.{until_zero}
use looka.Http.{HttpRequest, get_header_value, new_http_request}
use looka.Http.Parser.{parse_header}
use looka.Http.Reply.{HttpReply, crlf, direct_reply, status_bad_request}
use looka.Http.Server.{
  read_once, chunk_bytes, read_buf_size, read_header, read_left, cut_content, read_content, answer,
  handle_content, handle_request,
}
use looka.Http.Whole.{content_result, handle_content_cases, header_result, handle_request_cases}
use looka.StrUtils.{atoi}

-- A result that is not the end of the model's fuel.
abbrev Ends {ℓ} : {A : Type ℓ} → Result A → Type 0
Ends (ok a) = Unit
Ends fault = Unit
Ends stuck = ⊥

module _ (n : ℕ) (s : Bytes) (chunks : List Bytes) where
  -- A read that is of a byte at least, and leaves the other bytes.
  abbrev Shrinks : Bytes → List Bytes → Type 0
  Shrinks buf rest =
      (0 < length buf) × (length s + chunk_bytes chunks ≡ length buf + chunk_bytes rest)

  Shrinks-all : 0 < length s → Shrinks s chunks
  Shrinks-all h = (h, refl)

  Shrinks-part : 0 < n → n < length s → Shrinks (take n s) (drop n s ∷ chunks)
  unfolding chunk_bytes
  Shrinks-part h long =
      (omega (arith, length-take n s), omega (arith, length-take n s, length-drop n s))

read_once_shrinks :
    (n : ℕ) (chunks : List Bytes) (buf : Bytes) (rest : List Bytes)
    → 0 < n
    → read_once n chunks ≡ some (buf, rest)
    → (0 < length buf) × (chunk_bytes chunks ≡ length buf + chunk_bytes rest)
read_once_shrinks n [] buf rest h e = absurd (unfold read_once in cc)
read_once_shrinks n ([] ∷ chunks) buf rest h e = absurd (unfold read_once in cc)
read_once_shrinks n ((c ∷ cs) ∷ chunks) buf rest h e = elim (Bool-cases (leb (length (c ∷ cs)) n)) [
  | inl fits ↦
      let found : read_once n ((c ∷ cs) ∷ chunks) ≡ some (c ∷ cs, chunks) =
        unfold read_once in rw (fits) refl in
      let all : ◌≡◌ {A = Option (Bytes × List Bytes)} (some (c ∷ cs, chunks)) (some (buf, rest)) =
        sym found ∙ e in
      unfold chunk_bytes in subst_pair (Shrinks-all n (c ∷ cs) chunks (omega arith)) all
  | inr long ↦
      let longer : n < length (c ∷ cs) = ground (arith, long) in
      let found : read_once n ((c ∷ cs) ∷ chunks)
          ≡ some (take n (c ∷ cs), drop n (c ∷ cs) ∷ chunks) =
        unfold read_once in rw (long) refl in
      let part : ◌≡◌ {A = Option (Bytes × List Bytes)}
          (some (take n (c ∷ cs), drop n (c ∷ cs) ∷ chunks)) (some (buf, rest)) =
        sym found ∙ e in
      unfold chunk_bytes in subst_pair (Shrinks-part n (c ∷ cs) chunks h longer) part
]
  where
    subst_pair :
        {x : Bytes} {xs : List Bytes}
        → Shrinks n (c ∷ cs) chunks x xs
        → ◌≡◌ {A = Option (Bytes × List Bytes)} (some (x, xs)) (some (buf, rest))
        → Shrinks n (c ∷ cs) chunks buf rest
    subst_pair {x} {xs} h e =
        let p : x ≡ buf = cc in
        let q : xs ≡ rest = cc in
        subst (λ y. Shrinks n (c ∷ cs) chunks y rest) p (subst (Shrinks n (c ∷ cs) chunks x) q h)

abbrev header_round :
    ℕ
    → Bytes
    → List Bytes
    → Option ℕ
    → Option (Bytes × List Bytes)
    → Result (Option (Bytes × Bytes × List Bytes))
header_round n ahead chunks (some p) r = ok (some (take (p + 4) ahead, drop (p + 4) ahead, chunks))
header_round n ahead chunks none none = ok none
header_round n ahead chunks none (some (buf, rest)) = read_header n (ahead ++ until_zero buf) rest

read_header_round :
    (n : ℕ) (ahead : Bytes) (chunks : List Bytes)
    → read_header (suc n) ahead chunks
      ≡ header_round n ahead chunks (find (crlf ++ crlf) ahead) (read_once read_buf_size chunks)
unfolding read_header
read_header_round n ahead chunks =
    by_find (find (crlf ++ crlf) ahead) (read_once read_buf_size chunks) refl refl
  where
    by_find :
        (p : Option ℕ) (r : Option (Bytes × List Bytes))
        → find (crlf ++ crlf) ahead ≡ p
        → read_once read_buf_size chunks ≡ r
        → read_header (suc n) ahead chunks ≡ header_round n ahead chunks p r
    by_find (some p) r e f = rw (read_header, e) refl
    by_find none none e f = rw (read_header, e, f) refl
    by_find none (some (buf, rest)) e f = rw (read_header, e, f) refl

header_round-Ends :
    (n : ℕ) (ahead : Bytes) (chunks : List Bytes) (p : Option ℕ) (r : Option (Bytes × List Bytes))
    → ((buf : Bytes) (rest : List Bytes)
        → r ≡ some (buf, rest)
        → Ends (read_header n (ahead ++ until_zero buf) rest))
    → Ends (header_round n ahead chunks p r)
header_round-Ends n ahead chunks (some p) r rec = tt
header_round-Ends n ahead chunks none none rec = tt
header_round-Ends n ahead chunks none (some (buf, rest)) rec = rec buf rest refl

-- The fuel is enough.
read_header-Ends :
    (n : ℕ) (ahead : Bytes) (chunks : List Bytes)
    → chunk_bytes chunks < n
    → Ends (read_header n ahead chunks)
read_header-Ends zero ahead chunks fuel = absurd (omega arith)
read_header-Ends (suc n) ahead chunks fuel = subst Ends (sym (read_header_round n ahead chunks)) (
    header_round-Ends n ahead chunks (find (crlf ++ crlf) ahead) (read_once read_buf_size chunks)
      (λ buf rest e.
        read_header-Ends n (ahead ++ until_zero buf) rest
          (omega (arith, read_once_shrinks read_buf_size chunks buf rest (omega arith) e))))

abbrev left_round :
    ℕ → ℕ → Bytes → Option (Bytes × List Bytes) → Result (Option (Bytes × List Bytes))
left_round n left ahead none = ok none
left_round n left ahead (some (buf, rest)) =
    read_left n (suc left - length buf) (ahead ++ until_zero buf) rest

-- The size that the loop asks for.
abbrev asked : ℕ → ℕ
asked left = if ltb read_buf_size left then read_buf_size else left

asked-pos : (left : ℕ) → 0 < asked (suc left)
asked-pos left = ground arith

read_left_round :
    (n left : ℕ) (ahead : Bytes) (chunks : List Bytes)
    → read_left (suc n) (suc left) ahead chunks
      ≡ left_round n left ahead (read_once (asked (suc left)) chunks)
unfolding read_left
read_left_round n left ahead chunks = by_read (read_once (asked (suc left)) chunks) refl
  where
    by_read :
        (r : Option (Bytes × List Bytes))
        → read_once (asked (suc left)) chunks ≡ r
        → read_left (suc n) (suc left) ahead chunks ≡ left_round n left ahead r
    by_read none e = rw (read_left, e) refl
    by_read (some (buf, rest)) e = rw (read_left, e) refl

left_round-Ends :
    (n left : ℕ) (ahead : Bytes) (r : Option (Bytes × List Bytes))
    → ((buf : Bytes) (rest : List Bytes)
        → r ≡ some (buf, rest)
        → Ends (read_left n (suc left - length buf) (ahead ++ until_zero buf) rest))
    → Ends (left_round n left ahead r)
left_round-Ends n left ahead none rec = tt
left_round-Ends n left ahead (some (buf, rest)) rec = rec buf rest refl

read_left-Ends :
    (n left : ℕ) (ahead : Bytes) (chunks : List Bytes)
    → chunk_bytes chunks < n
    → Ends (read_left n left ahead chunks)
read_left-Ends n zero ahead chunks fuel = unfold read_left in tt
read_left-Ends zero (suc left) ahead chunks fuel = absurd (omega arith)
read_left-Ends (suc n) (suc left) ahead chunks fuel =
    subst Ends (sym (read_left_round n left ahead chunks)) (
      left_round-Ends n left ahead (read_once (asked (suc left)) chunks) (λ buf rest e.
        read_left-Ends n (suc left - length buf) (ahead ++ until_zero buf) rest
          (omega (arith, read_once_shrinks (asked (suc left)) chunks buf rest (asked-pos left) e))))

read_content-Ends :
    (len : ℤ) (behind : Bytes) (chunks : List Bytes) → Ends (read_content len behind chunks)
unfolding read_content
read_content-Ends len behind chunks = by_left (wrap_int (len -ℤ pos (length behind))) len
  where
    by_left :
        (left len : ℤ)
        → Ends (elim left as (λ x. Result (Option (Bytes × List Bytes))) [
          | negsuc _ ↦ cut_content len behind chunks
          | pos left ↦ read_left (suc (chunk_bytes chunks)) left behind chunks
        ])
    by_left (pos left) len =
        read_left-Ends (suc (chunk_bytes chunks)) left behind chunks (omega arith)
    by_left (negsuc left) (pos len) = tt
    by_left (negsuc left) (negsuc len) = tt

module _ (process : HttpRequest → Option (Bytes × Bytes)) where
  content_result-Ends :
      (req : HttpRequest) (r : Result (Option (Bytes × List Bytes)))
      → Ends r
      → Ends (content_result process req r)
  content_result-Ends req (ok none) h = tt
  content_result-Ends req (ok (some (content, rest))) h = tt
  content_result-Ends req fault h = tt
  content_result-Ends req stuck h = h

  handle_content-Ends :
      (req : HttpRequest) (behind : Bytes) (chunks : List Bytes)
      → Ends (handle_content process req behind chunks)
  handle_content-Ends req behind chunks =
      subst Ends (sym (handle_content_cases process req behind chunks))
        (by_length (is_empty (get_header_value req (codes "Content-Length"))))
    where
      by_length :
          (b : Bool)
          → Ends (
              if b
              then ok (answer process req)
              else content_result process req (
                  read_content
                    (atoi (get_header_value req (codes "Content-Length")))
                    behind
                    chunks))
      by_length true = tt
      by_length false = content_result-Ends req _ (read_content-Ends _ behind chunks)

  header_result-Ends :
      (r : Result (Option (Bytes × Bytes × List Bytes))) → Ends r → Ends (header_result process r)
  header_result-Ends (ok none) h = tt
  header_result-Ends (ok (some (header, behind, rest))) h =
      by_parse (parse_header header new_http_request)
    where
      by_parse :
          (q : Option HttpRequest)
          → Ends (elim q as (λ x. Result HttpReply) [
            | none ↦ ok (direct_reply status_bad_request)
            | some req ↦ handle_content process req behind rest
          ])
      by_parse none = tt
      by_parse (some req) = handle_content-Ends req behind rest
  header_result-Ends fault h = tt
  header_result-Ends stuck h = h

  Ends-ne_stuck : (r : Result HttpReply) → Ends r → r ≢ stuck
  Ends-ne_stuck r h e = subst Ends e h

  -- Whatever a connection delivers and in whatever pieces, `HandleRequest` comes to an end: its
  -- reads of the header and of the content never run out of the fuel that the number of bytes
  -- gives.
  pub handle_request-ne-stuck : (chunks : List Bytes) → handle_request process chunks ≢ stuck
  handle_request-ne-stuck chunks = Ends-ne_stuck (handle_request process chunks) (
      subst Ends (sym (handle_request_cases process chunks)) (
        header_result-Ends (read_header (suc (chunk_bytes chunks)) [] chunks)
          (read_header-Ends (suc (chunk_bytes chunks)) [] chunks (omega arith))))
