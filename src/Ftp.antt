-- ===== src/Ftp.antt =====
-- sources/components/nn20clock_ftp: a session of a client, one command line after the other. The
-- card behind it is the owner's callbacks, which are a parameter. What the session does is listed in
-- order: the replies, what it shows as its activity, and the calls of the owner. A transfer, which
-- is sockets, is listed where it begins.
pub mod Commands
pub mod Paths
pub mod Confined
pub mod Replies
pub mod Sessions
use Prim.Native.String.{String}
use videoalarmclock.Prelude.Bytes.{codes}
use videoalarmclock.Prelude.{
  ℕ, zero, suc, ◌+◌, ◌-◌, ◌/◌, ◌%◌, Bool, Option, List, [], ◌∷◌, ◌++◌, ◌==◌, if◌then◌else◌, length,
  take,
}
use videoalarmclock.Media.Paths.{path_max}
use videoalarmclock.Platform.{EspErr}

-- `COMMAND_MAX`, and `NN20CLOCK_FTP_PATH_MAX`
abbrev pub command_max : ℕ
command_max = 512

abbrev pub ftp_path_max : ℕ
ftp_path_max = path_max

-- `NN20ClockFtpActivity`
pub data Activity : Type 0 where
  idle downloading uploading listing deleting renaming creating_dir hiding : Activity

-- what is asked of the owner, or begun, for one path
pub data Op : Type 0 where
  stat_op remove_file_op make_dir_op remove_dir_op hide_op unhide_op : Op
  listing_op names_op retrieve_op store_op : Op

-- one thing that the session does. Of a reply, the bytes in the buffer and how many are sent from it.
pub data Call : Type 0 where
  sent : List ℕ → ℕ → Call
  doing : Activity → Call
  asked : Op → List ℕ → Call
  asked_rename : List ℕ → List ℕ → Call
  passive : Bool → Call

-- `NN20ClockFtpOps`: the answers of the callbacks; `stat` answers whether it is a folder, and the
-- size. The last one may be NULL.
pub record Ops : Type 0 where
  pub stat : List ℕ → Option (Bool × ℕ)
  pub remove_file : List ℕ → EspErr
  pub make_dir : List ℕ → EspErr
  pub remove_dir : List ℕ → EspErr
  pub rename : List ℕ → List ℕ → EspErr
  pub set_hidden : Option (List ℕ → Bool → EspErr)

-- `Session`, with the count of changes of its server
pub record Session : Type 0 where
  pub directory : List ℕ
  pub rename_from : List ℕ
  pub mutations : ℕ
  pub calls : List Call

abbrev pub did : Call → Session → Session
did c s = record s { calls = s.calls ++ c ∷ [] }

-- what `snprintf` leaves in a buffer of `size` bytes, without the terminator
abbrev pub printed : ℕ → List ℕ → List ℕ
printed size text = take (size - 1) text

-- `reply`: `send` is given the length that `snprintf` answers, that of the whole text
unfoldable pub reply_bytes : List ℕ → Session → Session
reply_bytes line s =
    let text = line ++ 13 ∷ 10 ∷ [] in did (sent (printed command_max text) (length text)) s

abbrev pub reply : String → Session → Session
reply line s = reply_bytes (codes line) s

-- `replyf`, of the text that its format gives
unfoldable pub replyf : List ℕ → Session → Session
unfolding reply_bytes
replyf text s = reply_bytes (printed command_max text) s

-- "%u" of a uint32_t, which has ten digits at most
unfoldable pub decimal_on : ℕ → ℕ → List ℕ → List ℕ
decimal_on zero n text = text
decimal_on (suc digits) n text =
    let rest = decimal_on digits (n / 10) ((b'0' + n % 10) ∷ text) in
    if n / 10 == 0 then (b'0' + n % 10) ∷ text else rest

unfoldable pub decimal : ℕ → List ℕ
unfolding decimal_on
decimal n = decimal_on 10 n []
