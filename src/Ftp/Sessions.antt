-- ===== src/Ftp/Sessions.antt =====
-- nn20clock_ftp.c: a session from its claim to its end, over what `recv` answers.
use videoalarmclock.Prelude.{
  ℕ, ◌-◌, Bool, true, false, ◌&&◌, List, [], ◌∷◌, ◌++◌, leb, ◌==◌, if◌then◌else◌, length, if-either,
  take,
}
use videoalarmclock.Media.Paths.{is_empty}
use videoalarmclock.Ftp.{command_max, idle, doing, Ops, Session, reply}
use videoalarmclock.Ftp.Commands.{handle_command}
use videoalarmclock.Ftp.Paths.{Confined, reply_bytes-Confined}
use videoalarmclock.Ftp.Confined.{root-SafePath, handle_command-Confined}

-- `claim_session`, of a slot that a former client has left
unfoldable pub claim_session : Session → Session
claim_session former = record former { directory = []; rename_from = []; calls = doing idle ∷ [] }

-- a line that is complete, which is dealt with if it is not empty
unfoldable pub complete : Ops → List ℕ → Session → Session × Bool
complete ops [] s = (s, true)
complete ops (c ∷ line) s = handle_command ops (c ∷ line) s

-- The loop that takes lines from the buffer. `line` is what stands before the byte looked at, back
-- to the last line end. `strstr` finds no line end behind a zero byte. What is left of the buffer,
-- the session, and whether it goes on.
unfoldable pub take_lines : Ops → List ℕ → List ℕ → Session → List ℕ × Session × Bool
unfolding complete
take_lines ops line [] s = (line, s, true)
take_lines ops line (c ∷ []) s = (line ++ c ∷ [], s, true)
take_lines ops line (c ∷ d ∷ rest) s = elim (c == 0) [
  | true ↦ (line ++ c ∷ d ∷ rest, s, true)
  | false ↦ elim (c == 13 && d == 10) [
    | false ↦ take_lines ops (line ++ c ∷ []) (d ∷ rest) s
    | true ↦
        let ran = complete ops line s in
        elim ran.1 [
          | true ↦ take_lines ops [] rest ran.0
          | false ↦ (line ++ c ∷ d ∷ rest, ran.0, false)
        ]
  ]
]

-- one round of the loop of `session_task`, of the bytes that are added to the buffer
unfoldable pub on_read : Ops → List ℕ → List ℕ → Session → List ℕ × Session × Bool
unfolding take_lines
on_read ops pending got s =
    let r = take_lines ops [] (pending ++ got) s in
    if leb (command_max - 1) (length r.0) then ([], reply "500 Line too long." r.1, r.2) else r

-- The loop: each read has the bytes that the client has sent and the owner as it is then. `recv` is
-- given what room is left; an empty answer ends the session.
unfoldable pub reads_from : List ℕ → Session → List (Ops × List ℕ) → Session
unfolding on_read
reads_from pending s [] = s
reads_from pending s ((ops, bytes) ∷ reads) =
    let got = take (command_max - length pending - 1) bytes in
    elim (is_empty got) [
      | true ↦ s
      | false ↦
          let round = on_read ops pending got s in
          elim round.2 [ true ↦ reads_from round.0 round.1 reads | false ↦ round.1 ]
    ]

-- `session_task`
unfoldable pub session_task : Session → List (Ops × List ℕ) → Session
unfolding reads_from
session_task s reads = reads_from [] (reply "220 NN20Clock media server" s) reads

complete-Confined :
    (ops : Ops) (line : List ℕ) (s : Session) → Confined s → Confined (complete ops line s).0
unfolding complete
complete-Confined ops [] s h = h
complete-Confined ops (c ∷ line) s h = handle_command-Confined ops (c ∷ line) s h

elim-either :
    {A : Type 0} (P : A → Type 0) (b : Bool) {x y : A}
    → P x
    → P y
    → P (elim b [ true ↦ x | false ↦ y ])
elim-either P true p q = p
elim-either P false p q = q

take_lines-Confined :
    (ops : Ops) (line rest : List ℕ) (s : Session)
    → Confined s
    → Confined (take_lines ops line rest s).1
unfolding take_lines
take_lines-Confined ops line [] s h = h
take_lines-Confined ops line (c ∷ []) s h = h
take_lines-Confined ops line (c ∷ d ∷ rest) s h =
    let P : List ℕ × Session × Bool → Type 0 = λ r. Confined r.1 in
    let ran = complete ops line s in
    let after : Confined ran.0 = complete-Confined ops line s h in
    elim-either P (c == 0) h (
      elim-either P (c == 13 && d == 10)
        (elim-either P ran.1 (take_lines-Confined ops [] rest ran.0 after) after)
        (take_lines-Confined ops (line ++ c ∷ []) (d ∷ rest) s h))

on_read-Confined :
    (ops : Ops) (pending got : List ℕ) (s : Session)
    → Confined s
    → Confined (on_read ops pending got s).1
unfolding on_read
on_read-Confined ops pending got s h =
    let r = take_lines ops [] (pending ++ got) s in
    let after : Confined r.1 = take_lines-Confined ops [] (pending ++ got) s h in
    if-either (λ (r : List ℕ × Session × Bool). Confined r.1) (leb (command_max - 1) (length r.0))
      (reply_bytes-Confined _ r.1 after) after

reads_from-Confined :
    (pending : List ℕ) (s : Session) (reads : List (Ops × List ℕ))
    → Confined s
    → Confined (reads_from pending s reads)
unfolding reads_from
reads_from-Confined pending s [] h = h
reads_from-Confined pending s ((ops, bytes) ∷ reads) h =
    let got = take (command_max - length pending - 1) bytes in
    let round = on_read ops pending got s in
    let after : Confined round.1 = on_read-Confined ops pending got s h in
    elim-either Confined (is_empty got) h
      (elim-either Confined round.2 (reads_from-Confined round.0 round.1 reads after) after)

-- Whatever a client sends, in whatever pieces it arrives, and whatever the owner answers each time:
-- from its claim on, whoever had the slot before, a session stays within the card. Its folder, the
-- path that it may rename, and every path that it has handed to the owner are safe.
pub session_task-Confined :
    (former : Session) (reads : List (Ops × List ℕ))
    → Confined (session_task (claim_session former) reads)
unfolding session_task claim_session
session_task-Confined former reads =
    reads_from-Confined [] (reply "220 NN20Clock media server" (claim_session former)) reads
      (reply_bytes-Confined _ (claim_session former) (root-SafePath, root-SafePath, (tt, tt)))
