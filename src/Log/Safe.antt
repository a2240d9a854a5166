-- ===== src/Log/Safe.antt =====
-- A logged message cannot start a line of its own.
use chaos_forger.Prelude.{
  ◌<◌, ◌↔◌, ◌≡◌, false, [], ◌∷◌, ◌++◌, some, none, Bytes, text, c_str, All, arith, ltb,
}
use chaos_forger.Log.{
  LogLevel, debug, rank, log_tag, is_line_break, fold_breaks, log_body, Written, log_line,
}

abbrev pub IsOneLine : Bytes → Type 0
IsOneLine = All (λ c. is_line_break c ≡ false)

IsOneLine-append : (xs ys : Bytes) → IsOneLine xs → IsOneLine ys → IsOneLine (xs ++ ys)
IsOneLine-append [] ys hx hy = hy
IsOneLine-append (x ∷ xs) ys hx hy = (hx.0, IsOneLine-append xs ys hx.1 hy)

fold_breaks-IsOneLine : (m : Bytes) → IsOneLine (fold_breaks m)
unfolding fold_breaks
fold_breaks-IsOneLine [] = tt
fold_breaks-IsOneLine (c ∷ cs) = (ground arith, fold_breaks-IsOneLine cs)

c_str-IsOneLine : (m : Bytes) → IsOneLine m → IsOneLine (c_str m)
unfolding c_str
c_str-IsOneLine [] h = tt
c_str-IsOneLine (c ∷ cs) h = ground (arith, c_str-IsOneLine cs h.1)

log_tag-IsOneLine : (lvl : LogLevel) → IsOneLine (log_tag lvl)
unfolding log_tag text
log_tag-IsOneLine debug = ground arith
log_tag-IsOneLine _ = ground arith

text-IsOneLine : IsOneLine (text "] [") × IsOneLine (text "] ")
unfolding text
text-IsOneLine = ground arith

log_body-IsOneLine :
    (stamp msg : Bytes) (lvl : LogLevel) → IsOneLine stamp → IsOneLine (log_body stamp lvl msg)
unfolding log_body
log_body-IsOneLine stamp msg lvl h = (
  ground arith,
  IsOneLine-append _ _ (c_str-IsOneLine stamp h) (
      IsOneLine-append _ _ text-IsOneLine.0 (
        IsOneLine-append _ _ (log_tag-IsOneLine lvl) (
          IsOneLine-append _ _ text-IsOneLine.1
            (c_str-IsOneLine (fold_breaks msg) (fold_breaks-IsOneLine msg))))),
)

-- Whatever the message holds, a line that is written is one line: with a stamp that has no line
-- break, no byte before the final newline is CR or LF; and the line goes to stderr exactly for
-- the levels WARN and ERROR.
pub log_line-IsOneLine :
    (threshold lvl : LogLevel) (stamp msg : Bytes) (w : Written)
    → IsOneLine stamp
    → log_line threshold stamp lvl msg ≡ some w
    → (body : Bytes) × (w.line ≡ body ++ b'\n' ∷ [])
      × IsOneLine body
      × (w.to_stderr ≡ ltb 1 (rank lvl))
unfolding log_line
log_line-IsOneLine threshold lvl stamp msg w h e =
    (log_body stamp lvl msg, ground arith, log_body-IsOneLine stamp msg lvl h, stderr lvl e)
  where
    stderr : (l : LogLevel) → log_line threshold stamp l msg ≡ some w → w.to_stderr ≡ ltb 1 (rank l)
    stderr debug e = ground arith
    stderr _ e = ground arith

-- A message below the stored level writes nothing, any other is written.
pub log_line_filter :
    (threshold lvl : LogLevel) (stamp msg : Bytes)
    → (log_line threshold stamp lvl msg ≡ none) ↔ (rank lvl < rank threshold)
unfolding log_line
log_line_filter threshold lvl stamp msg = (λ e. ground arith, λ e. ground arith)
