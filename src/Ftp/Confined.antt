-- ===== src/Ftp/Confined.antt =====
-- nn20clock_ftp.c: every command keeps a session within the card.
use videoalarmclock.Prelude.{
  ℕ, refl, Bool, true, false, ◌&&◌, not, Option, none, some, List, [], ◌++◌, map, if◌then◌else◌,
  if-either,
}
use videoalarmclock.Prelude.Bytes.{codes, to_upper}
use videoalarmclock.Platform.{EspErr}
use videoalarmclock.Media.Paths.{path_is_safe, is_empty}
use videoalarmclock.Ftp.{
  doing, asked, asked_rename, passive, Activity, idle, downloading, uploading, deleting, renaming,
  creating_dir, hiding, Op, stat_op, remove_file_op, make_dir_op, remove_dir_op, hide_op, unhide_op,
  listing_op, names_op, retrieve_op, store_op, Ops, Session, did, reply, replyf, decimal,
}
use videoalarmclock.Ftp.Commands.{
  Verb, user, pass, syst, feat, opts, type_verb, pwd, cwd, cdup, pasv, epsv, port_verb, list_verb,
  nlst, retr, stor, dele, mkd, rmd, rnfr, rnto, size_verb, site, noop, quit, unknown, with_path,
  changed, cwd_to, rnfr_of, rnto_of, size_of, hidden_to, site_of, features, transfer, dispatch,
  handle_command, verb_of, split_line, is_text, starts_dash, is_rnto,
}
use videoalarmclock.Ftp.Paths.{
  SafePath, Confined, did-Confined, reply_bytes-Confined, replyf-Confined, with_path-Confined,
  changed-Confined, cwd_to-Confined, rnfr_of-Confined,
}

pub root-SafePath : SafePath []
unfolding path_is_safe
root-SafePath = refl

rnto_of-Confined :
    (ops : Ops) (from path : List ℕ) (s : Session)
    → SafePath from
    → SafePath path
    → Confined s
    → Confined (rnto_of ops from path s)
unfolding rnto_of
rnto_of-Confined ops from path s f p h =
    if-either Confined (is_empty path)
      (reply_bytes-Confined _ _ (
        did-Confined (doing idle) (did (doing renaming) s) tt
          (did-Confined (doing renaming) s tt h)))
      (changed-Confined renaming (asked_rename from path) (ops.rename from path)
        (reply "250 Rename successful.") "553 Cannot rename; the target may already exist." s (f, p)
        (λ s h. reply_bytes-Confined (codes "250 Rename successful.") s h) h)

size_of-Confined :
    (ops : Ops) (path : List ℕ) (s : Session)
    → SafePath path
    → Confined s
    → Confined (size_of ops path s)
unfolding size_of
size_of-Confined ops path s p h = go (ops.stat path)
  where
    known : Confined (did (asked stat_op path) s)
    known = did-Confined (asked stat_op path) s p h

    go :
        (o : Option (Bool × ℕ))
        → Confined (elim o [
          | some (false, size) ↦ replyf (codes "213 " ++ decimal size) (did (asked stat_op path) s)
          | _ ↦ reply "550 File not found." (did (asked stat_op path) s)
        ])
    go none = reply_bytes-Confined _ _ known
    go (some (true, size)) = reply_bytes-Confined _ _ known
    go (some (false, size)) = replyf-Confined _ _ known

hidden_to-Confined :
    (set_hidden : List ℕ → Bool → EspErr) (hide : Bool) (path : List ℕ) (s : Session)
    → SafePath path
    → Confined s
    → Confined (hidden_to set_hidden hide path s)
unfolding hidden_to
hidden_to-Confined set_hidden hide path s p h =
    if-either Confined (is_empty path)
      (reply_bytes-Confined _ _
        (did-Confined (doing idle) (did (doing hiding) s) tt (did-Confined (doing hiding) s tt h)))
      (changed-Confined hiding (asked (if hide then hide_op else unhide_op) path)
        (set_hidden path hide)
        (replyf
          (codes "200 /" ++ path ++ codes (if hide then " is now hidden." else " is now visible.")))
        "550 Cannot change that." s p
        (λ s h.
          replyf-Confined
            (codes "200 /"
              ++ path
              ++ codes (if hide then " is now hidden." else " is now visible."))
            s h)
        h)

site_of-Confined :
    (ops : Ops) (verb target : List ℕ) (s : Session)
    → Confined s
    → Confined (site_of ops verb target s)
unfolding site_of
site_of-Confined ops verb target s h =
    if-either Confined (not (is_text verb "HIDE") && not (is_text verb "UNHIDE"))
      (reply_bytes-Confined _ s h) (go ops.set_hidden)
  where
    go :
        (o : Option (List ℕ → Bool → EspErr))
        → Confined (elim o [
          | none ↦ reply "502 SITE HIDE is not supported here." s
          | some set_hidden ↦
              if is_empty target
              then reply "501 SITE HIDE needs a path." s
              else with_path target (hidden_to set_hidden (is_text verb "HIDE")) s
        ])
    go none = reply_bytes-Confined _ s h
    go (some set_hidden) = if-either Confined (is_empty target) (reply_bytes-Confined _ s h) (
        with_path-Confined target (hidden_to set_hidden (is_text verb "HIDE")) s h
          (λ path p. hidden_to-Confined set_hidden (is_text verb "HIDE") path s p h))

features-Confined : (s : Session) → Confined s → Confined (features s)
unfolding features
features-Confined s h = reply_bytes-Confined _ _ (
    reply_bytes-Confined _ _ (
      reply_bytes-Confined _ _
        (reply_bytes-Confined _ _ (reply_bytes-Confined _ _ (reply_bytes-Confined _ s h)))))

transfer-Confined :
    (a : Activity) (op : Op) (path : List ℕ) (s : Session)
    → SafePath path
    → Confined s
    → Confined (transfer a op path s)
unfolding transfer
transfer-Confined a op path s p h =
    did-Confined (doing idle) (did (asked op path) (did (doing a) s)) tt
      (did-Confined (asked op path) (did (doing a) s) p (did-Confined (doing a) s tt h))

dispatch-Confined :
    (ops : Ops) (verb : Verb) (line argument from : List ℕ) (s : Session)
    → SafePath from
    → Confined s
    → Confined (dispatch ops verb line argument from s)
unfolding dispatch
dispatch-Confined ops user line argument from s f h = reply_bytes-Confined _ s h
dispatch-Confined ops pass line argument from s f h = reply_bytes-Confined _ s h
dispatch-Confined ops syst line argument from s f h = reply_bytes-Confined _ s h
dispatch-Confined ops opts line argument from s f h = reply_bytes-Confined _ s h
dispatch-Confined ops type_verb line argument from s f h = reply_bytes-Confined _ s h
dispatch-Confined ops port_verb line argument from s f h = reply_bytes-Confined _ s h
dispatch-Confined ops noop line argument from s f h = reply_bytes-Confined _ s h
dispatch-Confined ops quit line argument from s f h = reply_bytes-Confined _ s h
dispatch-Confined ops feat line argument from s f h = features-Confined s h
dispatch-Confined ops pwd line argument from s f h = replyf-Confined _ s h
dispatch-Confined ops unknown line argument from s f h = replyf-Confined _ s h
dispatch-Confined ops pasv line argument from s f h = did-Confined (passive false) s tt h
dispatch-Confined ops epsv line argument from s f h = did-Confined (passive true) s tt h
dispatch-Confined ops cwd line argument from s f h =
    with_path-Confined argument (cwd_to ops) s h (λ path p. cwd_to-Confined ops path s p h)
dispatch-Confined ops cdup line argument from s f h =
    with_path-Confined (codes "..") (cwd_to ops) s h (λ path p. cwd_to-Confined ops path s p h)
dispatch-Confined ops list_verb line argument from s f h =
    with_path-Confined (if starts_dash argument then [] else argument)
      (λ path. did (asked listing_op path)) s h
      (λ path p. did-Confined (asked listing_op path) s p h)
dispatch-Confined ops nlst line argument from s f h =
    with_path-Confined (if starts_dash argument then [] else argument)
      (λ path. did (asked names_op path)) s h (λ path p. did-Confined (asked names_op path) s p h)
dispatch-Confined ops retr line argument from s f h =
    with_path-Confined argument (transfer downloading retrieve_op) s h
      (λ path p. transfer-Confined downloading retrieve_op path s p h)
dispatch-Confined ops stor line argument from s f h =
    with_path-Confined argument (transfer uploading store_op) s h
      (λ path p. transfer-Confined uploading store_op path s p h)
dispatch-Confined ops dele line argument from s f h =
    with_path-Confined argument
      (λ path.
        changed deleting (asked remove_file_op path) (ops.remove_file path)
          (reply "250 File deleted.") "550 Cannot delete file.")
      s h
      (λ path p.
        changed-Confined deleting (asked remove_file_op path) (ops.remove_file path)
          (reply "250 File deleted.") "550 Cannot delete file." s p
          (λ s h. reply_bytes-Confined (codes "250 File deleted.") s h) h)
dispatch-Confined ops mkd line argument from s f h =
    with_path-Confined argument
      (λ path.
        changed creating_dir (asked make_dir_op path) (ops.make_dir path)
          (replyf (codes "257 \"/" ++ path ++ codes "\" created.")) "550 Cannot create directory.")
      s h
      (λ path p.
        changed-Confined creating_dir (asked make_dir_op path) (ops.make_dir path)
          (replyf (codes "257 \"/" ++ path ++ codes "\" created.")) "550 Cannot create directory." s
          p (λ s h. replyf-Confined (codes "257 \"/" ++ path ++ codes "\" created.") s h) h)
dispatch-Confined ops rmd line argument from s f h =
    with_path-Confined argument
      (λ path.
        changed deleting (asked remove_dir_op path) (ops.remove_dir path)
          (reply "250 Directory deleted.") "550 Cannot delete directory; it must be empty.")
      s h
      (λ path p.
        changed-Confined deleting (asked remove_dir_op path) (ops.remove_dir path)
          (reply "250 Directory deleted.") "550 Cannot delete directory; it must be empty." s p
          (λ s h. reply_bytes-Confined (codes "250 Directory deleted.") s h) h)
dispatch-Confined ops rnfr line argument from s f h =
    with_path-Confined argument (rnfr_of ops) s h (λ path p. rnfr_of-Confined ops path s p h)
dispatch-Confined ops rnto line argument from s f h =
    let cleared : Session = record s { rename_from = [] } in
    let c : Confined cleared = (h.0, root-SafePath, h.2) in
    if-either Confined (is_empty from) (reply_bytes-Confined _ cleared c) (
      with_path-Confined argument (rnto_of ops from) cleared c
        (λ path p. rnto_of-Confined ops from path cleared f p c))
dispatch-Confined ops size_verb line argument from s f h =
    with_path-Confined argument (size_of ops) s h (λ path p. size_of-Confined ops path s p h)
dispatch-Confined ops site line argument from s f h =
    site_of-Confined ops (map to_upper (split_line argument).0) (split_line argument).1 s h

-- Whatever line a client sends, and whatever the owner answers, a session stays within the card: its
-- folder, the path that it may rename, and every path that it has handed to the owner are safe, if
-- they were before the line.
pub handle_command-Confined :
    (ops : Ops) (text : List ℕ) (s : Session) → Confined s → Confined (handle_command ops text s).0
unfolding handle_command
handle_command-Confined ops text s h =
    let line = map to_upper (split_line text).0 in
    dispatch-Confined ops (verb_of line) line (split_line text).1 s.rename_from
      (if is_rnto (verb_of line) then s else record s { rename_from = [] }) h.1
      (if-either Confined (is_rnto (verb_of line)) h (h.0, root-SafePath, h.2))
