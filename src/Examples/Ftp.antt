-- ===== src/Examples/Ftp.antt =====
-- A session of a client of the FTP server.
use videoalarmclock.Prelude.Bytes.{codes, to_upper}
use videoalarmclock.Prelude.{
  ℕ, ◌≡◌, refl, true, none, some, List, [], ◌∷◌, ◌++◌, map, arith, length, take, replicate,
}
use videoalarmclock.Platform.{esp_ok}
use videoalarmclock.Ftp.{Ops, Session, sent}
use videoalarmclock.Ftp.Commands.{handle_command, split_line, verb_of}
use videoalarmclock.Ftp.Paths.{Confined}
use videoalarmclock.Ftp.Sessions.{claim_session, session_task, session_task-Confined}
use videoalarmclock.Ftp.Replies.{handle_command-over_read, refusal}

-- an owner all of whose answers are good, with folders only
abbrev card : Ops
card = record {
  stat = λ path. some (true, 0);
  remove_file = λ path. esp_ok;
  make_dir = λ path. esp_ok;
  remove_dir = λ path. esp_ok;
  rename = λ from to. esp_ok;
  set_hidden = none;
}

abbrev arrived : Session
arrived = record { directory = []; rename_from = []; mutations = 0; calls = [] }

abbrev request : List ℕ
request = codes "cwd morning/../evening"

cwd_moves : (handle_command card request arrived).0.directory ≡ codes "evening"
unfolding handle_command videoalarmclock.Media.Resolve.path_resolve
    videoalarmclock.Media.Paths.path_is_safe videoalarmclock.Media.Resolve.resolve_parts
    videoalarmclock.Media.Paths.parts videoalarmclock.Media.Resolve.resolve_part
    videoalarmclock.Media.Names.component_is_safe videoalarmclock.Media.Resolve.append_component
    videoalarmclock.Media.Resolve.drop_component videoalarmclock.Media.Paths.before_last_slash
    videoalarmclock.Ftp.reply_bytes
cwd_moves = refl

abbrev long_word : List ℕ
long_word = replicate 490 b'x'

handle_command-over_read_example :
    (handle_command card long_word arrived).0.calls
    ≡ [] ++ sent (take 511 (refusal (map to_upper (split_line long_word).0))) 513 ∷ []
unfolding verb_of split_line
handle_command-over_read_example =
    let long : length (split_line long_word).0 ≡ 490 = refl in
    handle_command-over_read card long_word arrived refl (omega (arith, long))

abbrev visits : List (Ops × List ℕ)
visits =
    (card, codes "cwd mor") ∷ (card, codes "ning" ++ 13 ∷ 10 ∷ codes "dele .." ++ 13 ∷ 10 ∷ []) ∷ []

pieces_join :
    (session_task (claim_session (record arrived { directory = codes "x" })) visits).directory
    ≡ codes "morning"
unfolding session_task handle_command videoalarmclock.Media.Resolve.path_resolve
    videoalarmclock.Media.Paths.path_is_safe videoalarmclock.Ftp.reply_bytes claim_session
    videoalarmclock.Media.Resolve.resolve_parts videoalarmclock.Media.Paths.parts
    videoalarmclock.Media.Resolve.resolve_part videoalarmclock.Media.Names.component_is_safe
    videoalarmclock.Media.Resolve.append_component videoalarmclock.Media.Paths.all_components
    videoalarmclock.Media.Resolve.drop_component videoalarmclock.Media.Paths.before_last_slash
pieces_join = refl

session_task-Confined_example :
    Confined (session_task (claim_session (record arrived { directory = codes "x" })) visits)
session_task-Confined_example =
    session_task-Confined (record arrived { directory = codes "x" }) visits
