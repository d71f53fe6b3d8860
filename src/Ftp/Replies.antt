-- ===== src/Ftp/Replies.antt =====
-- nn20clock_ftp.c: how many bytes a reply sends.
use videoalarmclock.Prelude.Bytes.{codes, to_upper}
use videoalarmclock.Prelude.{
  ℕ, zero, suc, ◌+◌, ◌≤◌, ◌≡◌, refl, ap, ap₂, List, [], ◌∷◌, ◌++◌, map, arith, length,
  length-append, take, length-map, length-take,
}
use videoalarmclock.Ftp.{sent, Ops, Session, replyf, reply_bytes}
use videoalarmclock.Ftp.Commands.{unknown, verb_of, split_line, dispatch, handle_command}

take-whole : (n : ℕ) (xs ys : List ℕ) → n ≤ length xs → take n (take n xs ++ ys) ≡ take n xs
take-whole zero xs ys h = refl
take-whole (suc n) [] ys h = absurd (omega (arith, h))
take-whole (suc n) (x ∷ xs) ys h = ap (λ l. x ∷ l) (take-whole n xs ys (omega (arith, h)))

-- the text of the answer to a verb that the server does not know
abbrev pub refusal : List ℕ → List ℕ
refusal line = codes "502 " ++ line ++ codes " not implemented."

length-refusal : (line : List ℕ) → length (refusal line) ≡ length line + 21
length-refusal line = omega (arith, length-append line (codes " not implemented."))

replyf-cut :
    (text : List ℕ) (s : Session)
    → 511 ≤ length text
    → (replyf text s).calls ≡ s.calls ++ sent (take 511 text) 513 ∷ []
unfolding replyf reply_bytes
replyf-cut text s h =
    let cut = take 511 text in
    let count : length (cut ++ 13 ∷ 10 ∷ []) ≡ 513 =
      omega (arith, h, length-append cut (13 ∷ 10 ∷ []), length-take 511 text) in
    ap₂ (λ bytes n. s.calls ++ sent bytes n ∷ []) (take-whole 511 text (13 ∷ 10 ∷ []) h) count

-- The answer to a line whose first word is no verb of the server and has 490 characters or more is
-- sent as 513 bytes from a buffer of 512, of which 511 are the text, cut, without its line end.
pub handle_command-over_read :
    (ops : Ops) (text : List ℕ) (s : Session)
    → verb_of (map to_upper (split_line text).0) ≡ unknown
    → 490 ≤ length (split_line text).0
    → (handle_command ops text s).0.calls
      ≡ s.calls ++ sent (take 511 (refusal (map to_upper (split_line text).0))) 513 ∷ []
unfolding handle_command dispatch
handle_command-over_read ops text s u h =
    let word = (split_line text).0 in
    let long : 511 ≤ length (refusal (map to_upper word)) =
      omega (arith, h, length-refusal (map to_upper word), length-map word to_upper) in
    rw (u) (replyf-cut (refusal (map to_upper word)) (record s { rename_from = [] }) long)
