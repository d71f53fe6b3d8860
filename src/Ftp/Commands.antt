-- ===== src/Ftp/Commands.antt =====
-- nn20clock_ftp.c: one line of a client. A path is at most as long as the buffers that hold it, so
-- that the copies of it are whole.
use videoalarmclock.Prelude.{
  ℕ, Bool, true, false, ◌&&◌, ◌||◌, not, none, some, List, [], ◌∷◌, ◌++◌, map, ◌==◌, if◌then◌else◌,
}
use Prim.Native.String.{String}
use videoalarmclock.Prelude.Bytes.{codes, str_eq, to_upper}
use videoalarmclock.Platform.{EspErr, ok, err, is_ok}
use videoalarmclock.Media.Paths.{is_empty}
use videoalarmclock.Media.Resolve.{path_resolve}
use videoalarmclock.Timer.Scan.{one_more}
use videoalarmclock.Ftp.{
  ftp_path_max, Activity, idle, downloading, uploading, deleting, renaming, creating_dir, hiding,
  Op, stat_op, remove_file_op, make_dir_op, remove_dir_op, hide_op, unhide_op, listing_op, names_op,
  retrieve_op, store_op, Call, doing, asked, asked_rename, passive, Ops, Session, did, decimal,
  reply, replyf,
}

-- the branches of `handle_command`
pub data Verb : Type 0 where
  user pass syst feat opts type_verb pwd cwd cdup pasv epsv port_verb list_verb : Verb
  nlst retr stor dele mkd rmd rnfr rnto size_verb site noop quit unknown : Verb

abbrev pub is_text : List ℕ → String → Bool
is_text line text = str_eq line (codes text)

-- the tests that choose a branch
unfoldable pub verb_of : List ℕ → Verb
verb_of line =
    if is_text line "USER"
    then user
    else if is_text line "PASS"
    then pass
    else if is_text line "SYST"
    then syst
    else if is_text line "FEAT"
    then feat
    else if is_text line "OPTS"
    then opts
    else if is_text line "TYPE"
    then type_verb
    else if is_text line "PWD" || is_text line "XPWD"
    then pwd
    else if is_text line "CWD" || is_text line "XCWD"
    then cwd
    else if is_text line "CDUP" || is_text line "XCUP"
    then cdup
    else if is_text line "PASV"
    then pasv
    else if is_text line "EPSV"
    then epsv
    else if is_text line "PORT" || is_text line "EPRT"
    then port_verb
    else if is_text line "LIST"
    then list_verb
    else if is_text line "NLST"
    then nlst
    else if is_text line "RETR"
    then retr
    else if is_text line "STOR"
    then stor
    else if is_text line "DELE"
    then dele
    else if is_text line "MKD" || is_text line "XMKD"
    then mkd
    else if is_text line "RMD" || is_text line "XRMD"
    then rmd
    else if is_text line "RNFR"
    then rnfr
    else if is_text line "RNTO"
    then rnto
    else if is_text line "SIZE"
    then size_verb
    else if is_text line "SITE"
    then site
    else if is_text line "NOOP"
    then noop
    else if is_text line "QUIT"
    then quit
    else unknown

-- the line up to its first space, and what follows the spaces
unfoldable pub skip_spaces : List ℕ → List ℕ
skip_spaces [] = []
skip_spaces (c ∷ cs) = if c == b' ' then skip_spaces cs else c ∷ cs

unfoldable pub split_line : List ℕ → List ℕ × List ℕ
unfolding skip_spaces
split_line [] = ([], [])
split_line (c ∷ cs) =
    let rest = split_line cs in if c == b' ' then ([], skip_spaces cs) else (c ∷ rest.0, rest.1)

-- `resolve_path`, and what follows it if it succeeds
unfoldable pub with_path : List ℕ → (List ℕ → Session → Session) → Session → Session
with_path input k s = elim (path_resolve (some s.directory) input ftp_path_max) [
  | ok path ↦ k path s
  | err e ↦ reply "550 No such file or directory." s
]

-- `note_mutation`
abbrev pub note_mutation : Session → Session
note_mutation s = record s { mutations = one_more s.mutations }

-- an operation of the owner that is shown as an activity, and the two ends of it
unfoldable pub changed : Activity → Call → EspErr → (Session → Session) → String → Session → Session
changed a call answer success failure s =
    let ran = did (doing idle) (did call (did (doing a) s)) in
    if is_ok answer then success (note_mutation ran) else reply failure ran

unfoldable pub cwd_to : Ops → List ℕ → Session → Session
cwd_to ops path s =
    let known = did (asked stat_op path) s in
    elim (ops.stat path) [
      | some (true, size) ↦ reply "250 Directory changed." (record known { directory = path })
      | _ ↦ reply "550 No such directory." known
    ]

unfoldable pub rnfr_of : Ops → List ℕ → Session → Session
rnfr_of ops path s =
    if is_empty path then reply "550 No such file or directory." s else elim (ops.stat path) [
      | none ↦ reply "550 No such file or directory." (did (asked stat_op path) s)
      | some _ ↦
          reply "350 Ready for RNTO." (record (did (asked stat_op path) s) { rename_from = path })
    ]

unfoldable pub rnto_of : Ops → List ℕ → List ℕ → Session → Session
unfolding changed
rnto_of ops from path s =
    if is_empty path
    then reply "553 Cannot rename; the target may already exist."
        (did (doing idle) (did (doing renaming) s))
    else changed renaming (asked_rename from path) (ops.rename from path)
        (reply "250 Rename successful.") "553 Cannot rename; the target may already exist." s

unfoldable pub size_of : Ops → List ℕ → Session → Session
size_of ops path s =
    let known = did (asked stat_op path) s in
    elim (ops.stat path) [
      | some (false, size) ↦ replyf (codes "213 " ++ decimal size) known
      | _ ↦ reply "550 File not found." known
    ]

-- SITE with its verb in capitals
unfoldable pub hidden_to : (List ℕ → Bool → EspErr) → Bool → List ℕ → Session → Session
unfolding changed
hidden_to set_hidden hide path s =
    if is_empty path
    then reply "550 Cannot change that." (did (doing idle) (did (doing hiding) s))
    else changed hiding (asked (if hide then hide_op else unhide_op) path) (set_hidden path hide)
        (replyf
          (codes "200 /" ++ path ++ codes (if hide then " is now hidden." else " is now visible.")))
        "550 Cannot change that." s

unfoldable pub site_of : Ops → List ℕ → List ℕ → Session → Session
unfolding hidden_to with_path
site_of ops verb target s =
    if not (is_text verb "HIDE") && not (is_text verb "UNHIDE")
    then reply "504 SITE takes HIDE or UNHIDE." s
    else elim ops.set_hidden [
      | none ↦ reply "502 SITE HIDE is not supported here." s
      | some set_hidden ↦
          if is_empty target
          then reply "501 SITE HIDE needs a path." s
          else with_path target (hidden_to set_hidden (is_text verb "HIDE")) s
    ]

abbrev pub starts_dash : List ℕ → Bool
starts_dash [] = false
starts_dash (c ∷ _) = c == b'-'

-- the branches of FEAT, and of the transfers, whose sockets are not modelled
unfoldable pub features : Session → Session
features s = reply "211 End" (
    reply " SITE HIDE UNHIDE"
      (reply " EPSV" (reply " UTF8" (reply " SIZE" (reply "211-Features:" s)))))

unfoldable pub transfer : Activity → Op → List ℕ → Session → Session
transfer a op path s = did (doing idle) (did (asked op path) (did (doing a) s))

-- the dispatch; `from` is the copy of `rename_from` that is taken before it
unfoldable pub dispatch : Ops → Verb → List ℕ → List ℕ → List ℕ → Session → Session
unfolding with_path cwd_to rnfr_of rnto_of size_of site_of features transfer changed split_line
dispatch ops user line argument from s = reply "230 Login successful." s
dispatch ops pass line argument from s = reply "230 Login successful." s
dispatch ops syst line argument from s = reply "215 UNIX Type: L8" s
dispatch ops feat line argument from s = features s
dispatch ops opts line argument from s = reply "200 OK." s
dispatch ops type_verb line argument from s = reply "200 Type set to I." s
dispatch ops pwd line argument from s =
    replyf (codes "257 \"/" ++ s.directory ++ codes "\" is the current directory.") s
dispatch ops cwd line argument from s = with_path argument (cwd_to ops) s
dispatch ops cdup line argument from s = with_path (codes "..") (cwd_to ops) s
dispatch ops pasv line argument from s = did (passive false) s
dispatch ops epsv line argument from s = did (passive true) s
dispatch ops port_verb line argument from s =
    reply "502 Active mode is not supported; use passive." s
dispatch ops list_verb line argument from s =
    with_path (if starts_dash argument then [] else argument) (λ path. did (asked listing_op path))
      s
dispatch ops nlst line argument from s =
    with_path (if starts_dash argument then [] else argument) (λ path. did (asked names_op path)) s
dispatch ops retr line argument from s = with_path argument (transfer downloading retrieve_op) s
dispatch ops stor line argument from s = with_path argument (transfer uploading store_op) s
dispatch ops dele line argument from s =
    with_path argument
      (λ path.
        changed deleting (asked remove_file_op path) (ops.remove_file path)
          (reply "250 File deleted.") "550 Cannot delete file.")
      s
dispatch ops mkd line argument from s =
    with_path argument
      (λ path.
        changed creating_dir (asked make_dir_op path) (ops.make_dir path)
          (replyf (codes "257 \"/" ++ path ++ codes "\" created.")) "550 Cannot create directory.")
      s
dispatch ops rmd line argument from s =
    with_path argument
      (λ path.
        changed deleting (asked remove_dir_op path) (ops.remove_dir path)
          (reply "250 Directory deleted.") "550 Cannot delete directory; it must be empty.")
      s
dispatch ops rnfr line argument from s = with_path argument (rnfr_of ops) s
dispatch ops rnto line argument from s =
    let cleared : Session = record s { rename_from = [] } in
    if is_empty from
    then reply "503 Bad sequence of commands; send RNFR first." cleared
    else with_path argument (rnto_of ops from) cleared
dispatch ops size_verb line argument from s = with_path argument (size_of ops) s
dispatch ops site line argument from s =
    site_of ops (map to_upper (split_line argument).0) (split_line argument).1 s
dispatch ops noop line argument from s = reply "200 OK." s
dispatch ops quit line argument from s = reply "221 Goodbye." s
dispatch ops unknown line argument from s =
    replyf (codes "502 " ++ line ++ codes " not implemented.") s

abbrev pub is_rnto : Verb → Bool
is_rnto rnto = true
is_rnto _ = false

abbrev is_quit : Verb → Bool
is_quit quit = true
is_quit _ = false

-- `handle_command`: the session, and whether it goes on
unfoldable pub handle_command : Ops → List ℕ → Session → Session × Bool
unfolding split_line verb_of dispatch
handle_command ops text s =
    let line = map to_upper (split_line text).0 in
    let verb = verb_of line in
    let entered : Session = if is_rnto verb then s else record s { rename_from = [] } in
    (dispatch ops verb line (split_line text).1 s.rename_from entered, not (is_quit verb))
