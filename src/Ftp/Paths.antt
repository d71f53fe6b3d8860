-- ===== src/Ftp/Paths.antt =====
-- nn20clock_ftp.c: which paths a session hands to the owner of the card.
use videoalarmclock.Prelude.{
  ℕ, ◌≡◌, inl, inr, Bool, true, false, Option, none, some, List, [], ◌∷◌, ◌++◌, length, if-either,
}
use videoalarmclock.Prelude.Bytes.{codes}
use Prim.Native.String.{String}
use videoalarmclock.Platform.{EspErr, Result-cases, is_ok}
use videoalarmclock.Media.Paths.{path_is_safe, folder, is_empty}
use videoalarmclock.Media.Resolve.{path_resolve}
use videoalarmclock.Media.Resolve.Walk.{path_resolve-walk}
use videoalarmclock.Ftp.{
  Call, sent, doing, asked, asked_rename, passive, Activity, idle, stat_op, Ops, Session, did,
  reply, reply_bytes, replyf, ftp_path_max,
}
use videoalarmclock.Ftp.Commands.{with_path, note_mutation, changed, cwd_to, rnfr_of}

-- a path that the rules of nn20clock_media take for a folder or a file on the card
abbrev pub SafePath : List ℕ → Type 0
SafePath path = path_is_safe path folder ≡ true

abbrev pub SafeCall : Call → Type 0
SafeCall (sent bytes length) = Unit
SafeCall (doing a) = Unit
SafeCall (asked op path) = SafePath path
SafeCall (asked_rename from to) = SafePath from × SafePath to
SafeCall (passive extended) = Unit

abbrev pub AllSafe : List Call → Type 0
AllSafe [] = Unit
AllSafe (c ∷ calls) = SafeCall c × AllSafe calls

-- Where the client is, what it is about to rename, and all that the owner has been asked is safe.
abbrev pub Confined : Session → Type 0
Confined s = SafePath s.directory × SafePath s.rename_from × AllSafe s.calls

AllSafe-append :
    (calls : List Call) (c : Call) → AllSafe calls → SafeCall c → AllSafe (calls ++ c ∷ [])
AllSafe-append [] c h k = (k, tt)
AllSafe-append (d ∷ calls) c h k = (h.0, AllSafe-append calls c h.1 k)

pub did-Confined : (c : Call) (s : Session) → SafeCall c → Confined s → Confined (did c s)
did-Confined c s k h = (h.0, h.1, AllSafe-append s.calls c h.2 k)

pub reply_bytes-Confined :
    (line : List ℕ) (s : Session) → Confined s → Confined (reply_bytes line s)
unfolding reply_bytes
reply_bytes-Confined line s h = did-Confined _ s tt h

pub replyf-Confined : (text : List ℕ) (s : Session) → Confined s → Confined (replyf text s)
unfolding replyf
replyf-Confined text s h = reply_bytes-Confined _ s h

pub with_path-Confined :
    (input : List ℕ) (k : List ℕ → Session → Session) (s : Session)
    → Confined s
    → ((path : List ℕ) → SafePath path → Confined (k path s))
    → Confined (with_path input k s)
unfolding with_path
with_path-Confined input k s h each =
    elim (Result-cases (path_resolve (some s.directory) input ftp_path_max)) [
      | inl (path, e) ↦
          rw (with_path, e)
            (each path (path_resolve-walk (some s.directory) input ftp_path_max e).0)
      | inr (e, h') ↦ rw (with_path, h') (reply_bytes-Confined _ s h)
    ]

pub changed-Confined :
    (a : Activity) (call : Call) (answer : EspErr) (success : Session → Session) (failure : String)
    (s : Session)
    → SafeCall call
    → ((s : Session) → Confined s → Confined (success s))
    → Confined s
    → Confined (changed a call answer success failure s)
unfolding changed
changed-Confined a call answer success failure s k each h =
    let ran = did (doing idle) (did call (did (doing a) s)) in
    let r : Confined ran =
      did-Confined (doing idle) (did call (did (doing a) s)) tt
        (did-Confined call (did (doing a) s) k (did-Confined (doing a) s tt h)) in
    if-either Confined (is_ok answer) (each (note_mutation ran) r)
      (reply_bytes-Confined (codes failure) ran r)

pub cwd_to-Confined :
    (ops : Ops) (path : List ℕ) (s : Session)
    → SafePath path
    → Confined s
    → Confined (cwd_to ops path s)
unfolding cwd_to
cwd_to-Confined ops path s p h = go (ops.stat path)
  where
    known : Confined (did (asked stat_op path) s)
    known = did-Confined (asked stat_op path) s p h

    go :
        (o : Option (Bool × ℕ))
        → Confined (elim o [
          | some (true, size) ↦
              reply "250 Directory changed."
                (record (did (asked stat_op path) s) { directory = path })
          | _ ↦ reply "550 No such directory." (did (asked stat_op path) s)
        ])
    go none = reply_bytes-Confined _ _ known
    go (some (true, size)) =
        reply_bytes-Confined _ (record (did (asked stat_op path) s) { directory = path })
          (p, known.1, known.2)
    go (some (false, size)) = reply_bytes-Confined _ _ known

pub rnfr_of-Confined :
    (ops : Ops) (path : List ℕ) (s : Session)
    → SafePath path
    → Confined s
    → Confined (rnfr_of ops path s)
unfolding rnfr_of
rnfr_of-Confined ops path s p h =
    if-either Confined (is_empty path) (reply_bytes-Confined _ s h) (go (ops.stat path))
  where
    known : Confined (did (asked stat_op path) s)
    known = did-Confined (asked stat_op path) s p h

    go :
        (o : Option (Bool × ℕ))
        → Confined (elim o [
          | none ↦ reply "550 No such file or directory." (did (asked stat_op path) s)
          | some _ ↦
              reply "350 Ready for RNTO."
                (record (did (asked stat_op path) s) { rename_from = path })
        ])
    go none = reply_bytes-Confined _ _ known
    go (some x) =
        reply_bytes-Confined _ (record (did (asked stat_op path) s) { rename_from = path })
          (known.0, p, known.2)
