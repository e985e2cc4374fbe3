-- ===== src/Server/Body.antt =====
-- repram-mcp/src/node/server.ts: how often `readBody` calls back, and with what.
use repram.Common.{
  ℕ, ◌+◌, ◌≤◌, ◌<◌, ◌≡◌, refl, sym, ap, ◌∙◌, true, false, List, [], ◌∷◌, ◌++◌, ltb, if◌then◌else◌,
  length, arith, length-append, Bool-cases, inl, inr, ltb→lt, ltb-false→le, lt→ltb,
}
use mathlib.Core.List.{append_assoc, append-nil}
use repram.Storage.{Buffer}
use repram.Server.{
  BodyResult, body, too_large, failed, StreamEnd, ended, errored, Reading, concat, on_data, on_end,
  read_chunks, read_body,
}

-- What the callback gets when the stream ends within the limit.
abbrev pub whole : StreamEnd → Buffer → BodyResult
whole ended content = body content
whole errored content = failed

read_chunks-exceeded :
    (max_bytes : ℕ) (r : Reading) (chunks : List Buffer) (end : StreamEnd)
    → r.exceeded ≡ true
    → read_chunks max_bytes r chunks end ≡ []
unfolding read_chunks on_data on_end
read_chunks-exceeded max_bytes r [] ended e = ground (arith, e)
read_chunks-exceeded max_bytes r [] errored e = ground (arith, e)
read_chunks-exceeded max_bytes r (chunk ∷ chunks) end e =
    ground (arith, e, read_chunks-exceeded max_bytes r chunks end e)

concat-snoc : (cs : List Buffer) (c : Buffer) → concat (cs ++ c ∷ []) ≡ concat cs ++ c
unfolding concat
concat-snoc [] c = append-nil c
concat-snoc (x ∷ cs) c = ap (◌++◌ x) (concat-snoc cs c) ∙ sym (append_assoc x (concat cs) c)

-- What is called back for the rest of a stream.
abbrev outcome : ℕ → Buffer → List Buffer → StreamEnd → List BodyResult
outcome max_bytes read chunks end =
    if ltb max_bytes (length read + length (concat chunks))
    then too_large ∷ []
    else whole end (read ++ concat chunks) ∷ []

on_data-over :
    (max_bytes : ℕ) (r : Reading) (chunk : Buffer)
    → r.exceeded ≡ false
    → ltb max_bytes (r.total_bytes + length chunk) ≡ true
    → on_data max_bytes r chunk
      ≡ (record r { total_bytes = r.total_bytes + length chunk; exceeded = true }, too_large ∷ [])
unfolding on_data
on_data-over max_bytes r chunk e over = ground (arith, e, over)

on_data-fits :
    (max_bytes : ℕ) (r : Reading) (chunk : Buffer)
    → r.exceeded ≡ false
    → ltb max_bytes (r.total_bytes + length chunk) ≡ false
    → on_data max_bytes r chunk ≡ (
      record r { total_bytes = r.total_bytes + length chunk; chunks = r.chunks ++ chunk ∷ [] },
      [],
    )
unfolding on_data
on_data-fits max_bytes r chunk e fits = ground (arith, e, fits)

read_chunks-outcome :
    (max_bytes : ℕ) (r : Reading) (chunks : List Buffer) (end : StreamEnd)
    → r.exceeded ≡ false
    → r.total_bytes ≡ length (concat r.chunks)
    → r.total_bytes ≤ max_bytes
    → read_chunks max_bytes r chunks end ≡ outcome max_bytes (concat r.chunks) chunks end
unfolding read_chunks on_data on_end concat
read_chunks-outcome max_bytes r [] ended e t h = ground (arith, append-nil (concat r.chunks), e)
read_chunks-outcome max_bytes r [] errored e t h = ground (arith, e)
read_chunks-outcome max_bytes r (chunk ∷ chunks) end e t h =
    elim (Bool-cases (ltb max_bytes (r.total_bytes + length chunk))) [
      | inl over ↦
          let more = length-append chunk (concat chunks) in
          let beyond = ltb→lt _ _ over in
          let large : max_bytes < length (concat r.chunks) + length (chunk ++ concat chunks) =
            omega arith in
          let full = lt→ltb _ _ large in
          let stopped : Reading = record r {
            total_bytes = r.total_bytes + length chunk;
            exceeded = true;
          } in
          rw
            (
              on_data-over max_bytes r chunk e over,
              read_chunks-exceeded max_bytes stopped chunks end refl,
              full,
            )
            refl
      | inr fits ↦
          let joined = concat-snoc r.chunks chunk in
          let sizes = length-append (concat r.chunks) chunk in
          let after = length-append chunk (concat chunks) in
          let within = ltb-false→le _ _ fits in
          let assoc = append_assoc (concat r.chunks) chunk (concat chunks) in
          let counts : length (concat r.chunks ++ chunk) + length (concat chunks)
              ≡ length (concat r.chunks) + length (chunk ++ concat chunks) =
            omega arith in
          let next : Reading = record r {
            total_bytes = r.total_bytes + length chunk;
            chunks = r.chunks ++ chunk ∷ [];
          } in
          let rest =
            read_chunks-outcome max_bytes next chunks end e ((omega arith) ∙ ap length (sym joined))
              within in
          rw (on_data-fits max_bytes r chunk e fits) (rest ∙ rw (joined, counts, assoc) refl)
    ]

-- `readBody` calls back exactly once, whatever the chunks: that the body is too large if the bytes
-- are more than the limit, and otherwise with all the bytes in order, or the error of the stream.
pub read_body_lem :
    (max_bytes : ℕ) (chunks : List Buffer) (end : StreamEnd)
    → read_body max_bytes chunks end
      ≡ (if ltb max_bytes (length (concat chunks)) then too_large else whole end (concat chunks))
        ∷ []
unfolding read_body
read_body_lem max_bytes chunks end =
    let start : Reading = record { chunks = []; total_bytes = 0; exceeded = false } in
    read_chunks-outcome max_bytes start chunks end refl (unfold concat in refl) (omega arith)
    ∙ ground arith
