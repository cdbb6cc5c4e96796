-- ===== src/ChunkBuffer/Contents.antt =====
-- What the buffer holds: at most its limit, and all that was written.
use product_feed_protocol.Prelude.{
  ℕ, ◌+◌, ◌≤◌, ◌<◌, ◌≡◌, ◌⊎◌, sym, ap, ◌∙◌, arith, false, Option, none, some, List, [], ◌∷◌, ◌++◌,
  length, map, length-append, Option-cases, inl, inr,
}
use mathlib.Core.List.{append_assoc, append-nil}
use product_feed_protocol.ChunkBuffer.{
  Bytes, Buffer, body, new, reopen, close, is_over, write, get_body, take_body, size, Call,
  call_open, call_write, call_get_body, call_take_body, call_size, call_close, perform, after,
}

unfoldable pub held : Option Bytes → ℕ
held none = 0
held (some bytes) = length bytes

held-perform :
    (c : Call) (s : Buffer)
    → 0 < s.max_bytes
    → held s.buffer ≤ s.max_bytes
    → (held (perform c s).1.buffer ≤ s.max_bytes) × ((perform c s).1.max_bytes ≡ s.max_bytes)
unfolding held perform write get_body take_body size close reopen
held-perform call_open s pos h = ground (arith, h)
held-perform (call_write chunk) s pos h = elim (Option-cases s.buffer) [
  | inl k ↦ ground (arith, h, k)
  | inr (bytes, k) ↦ ground (arith, pos, h, k, length-append bytes chunk)
]
held-perform call_get_body s pos h = ground (arith, h)
held-perform call_take_body s pos h = ground (arith, h)
held-perform call_size s pos h = ground (arith, h)
held-perform call_close s pos h = ground (arith, h)

held-after_from :
    (cs : List Call) (s : Buffer)
    → 0 < s.max_bytes
    → held s.buffer ≤ s.max_bytes
    → held (after cs s).buffer ≤ s.max_bytes
unfolding after
held-after_from [] s pos h = h
held-after_from (c ∷ cs) s pos h =
    let (less, same) = held-perform c s pos h in
    let rest =
      held-after_from cs (perform c s).1 (omega (arith, same, pos)) (omega (arith, same, less)) in
    omega (arith, rest, same)

-- A buffer with a limit never holds more bytes than the limit, whatever was called on it.
pub held-after :
    (limit : ℕ) (cs : List Call) → 0 < limit → held (after cs (new limit)).buffer ≤ limit
unfolding held
held-after limit cs pos = held-after_from cs (new limit) pos (omega arith)

abbrev pub joined : List Bytes → Bytes
joined [] = []
joined (c ∷ cs) = c ++ joined cs

abbrev collecting : ℕ → Bytes → Buffer
collecting limit bytes = record {
  max_bytes = limit;
  buffer = some bytes;
  closed = false;
  frozen = false;
}

after-writes :
    (limit : ℕ) (chunks : List Bytes) (bytes : Bytes)
    → (limit ≡ 0) ⊎ (length bytes + length (joined chunks) ≤ limit)
    → after (map call_write chunks) (collecting limit bytes)
      ≡ collecting limit (bytes ++ joined chunks)
unfolding after perform write
after-writes limit [] bytes fits = ap (collecting limit) (sym (append-nil bytes))
after-writes limit (c ∷ cs) bytes fits =
    let within : is_over limit (length bytes + length c) ≡ false =
      ground (arith, fits, length-append c (joined cs)) in
    rw (after, within)
      (after-writes limit cs (bytes ++ c)
          (ground (arith, fits, length-append c (joined cs), length-append bytes c))
        ∙ ap (collecting limit) (append_assoc bytes c (joined cs)))

-- Opened anew, whatever happened before, a buffer without a limit, or whose limit the chunks together keep, gives
-- back the chunks that are written to it, joined.
pub take_body-writes :
    (s : Buffer) (chunks : List Bytes)
    → (s.max_bytes ≡ 0) ⊎ (length (joined chunks) ≤ s.max_bytes)
    → (take_body (after (call_open ∷ map call_write chunks) s)).0 ≡ body (joined chunks)
unfolding after perform reopen take_body
take_body-writes s chunks fits =
    ap (λ t. (take_body t).0) (after-writes s.max_bytes chunks [] (ground (arith, fits)))
